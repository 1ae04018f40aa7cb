-- ===== src/Rfc6052.antt =====
-- mod/common/rfc6052.c: IPv4 addresses embedded in IPv6 addresses (RFC 6052, section 2.2).
-- `ipv6_prefix_equal` belongs to the kernel, and is a parameter.
pub mod RoundTrip
use jool.Prelude.{ℕ, Bool, true, false, if◌then◌else◌, ◌==◌}
use jool.Types.{InAddr, In6Addr, Ipv6Prefix, Result, ok, err, einval}

-- `struct ipv6_prefix` with one of the six lengths that the switches know, or any other.
pub data PrefixLen : Type 0 where
  l32 l40 l48 l56 l64 l96 lother : PrefixLen

-- The cases of `switch (prefix->len)`.
unfoldable pub prefix_len : ℕ → PrefixLen
prefix_len n =
    if n == 32
    then PrefixLen.l32
    else if n == 40
    then PrefixLen.l40
    else if n == 48
    then PrefixLen.l48
    else if n == 56
    then PrefixLen.l56
    else if n == 64
    then PrefixLen.l64
    else if n == 96
    then PrefixLen.l96
    else PrefixLen.lother

abbrev pub be_bytes : ℕ → ℕ → ℕ → ℕ → InAddr
be_bytes a b c d = record { b0 = a; b1 = b; b2 = c; b3 = d }

-- The switch of `__rfc6052_6to4`.
unfoldable pub extract : PrefixLen → In6Addr → Result InAddr
extract PrefixLen.l32 src = ok src.w1
extract PrefixLen.l40 src = ok (be_bytes src.w1.b1 src.w1.b2 src.w1.b3 src.w2.b1)
extract PrefixLen.l48 src = ok (be_bytes src.w1.b2 src.w1.b3 src.w2.b1 src.w2.b2)
extract PrefixLen.l56 src = ok (be_bytes src.w1.b3 src.w2.b1 src.w2.b2 src.w2.b3)
extract PrefixLen.l64 src = ok (be_bytes src.w2.b1 src.w2.b2 src.w2.b3 src.w3.b0)
extract PrefixLen.l96 src = ok src.w3
extract PrefixLen.lother src = err einval

-- The switch of `__rfc6052_4to6`, after the `memset`.
unfoldable pub embed : PrefixLen → In6Addr → InAddr → Result In6Addr
embed PrefixLen.l32 p s =
    ok (record { w0 = p.w0; w1 = s; w2 = be_bytes 0 0 0 0; w3 = be_bytes 0 0 0 0 })
embed PrefixLen.l40 p s = ok (record {
  w0 = p.w0;
  w1 = be_bytes p.w1.b0 s.b0 s.b1 s.b2;
  w2 = be_bytes 0 s.b3 0 0;
  w3 = be_bytes 0 0 0 0;
})
embed PrefixLen.l48 p s = ok (record {
  w0 = p.w0;
  w1 = be_bytes p.w1.b0 p.w1.b1 s.b0 s.b1;
  w2 = be_bytes 0 s.b2 s.b3 0;
  w3 = be_bytes 0 0 0 0;
})
embed PrefixLen.l56 p s = ok (record {
  w0 = p.w0;
  w1 = be_bytes p.w1.b0 p.w1.b1 p.w1.b2 s.b0;
  w2 = be_bytes 0 s.b1 s.b2 s.b3;
  w3 = be_bytes 0 0 0 0;
})
embed PrefixLen.l64 p s =
    ok (record { w0 = p.w0; w1 = p.w1; w2 = be_bytes 0 s.b0 s.b1 s.b2; w3 = be_bytes s.b3 0 0 0 })
embed PrefixLen.l96 p s = ok (record { w0 = p.w0; w1 = p.w1; w2 = p.w2; w3 = s })
embed PrefixLen.lother p s = err einval

unfoldable pub rfc6052_4to6 : Ipv6Prefix → InAddr → Result In6Addr
unfolding prefix_len embed
rfc6052_4to6 prefix src = embed (prefix_len prefix.len) prefix.addr src

module _ (ipv6_prefix_equal : In6Addr → In6Addr → ℕ → Bool) where
  -- `prefix6_contains` (address.c).
  unfoldable pub prefix6_contains : Ipv6Prefix → In6Addr → Bool
  prefix6_contains prefix addr = ipv6_prefix_equal prefix.addr addr prefix.len

  unfoldable pub rfc6052_6to4 : Ipv6Prefix → In6Addr → Result InAddr
  unfolding prefix6_contains prefix_len extract
  rfc6052_6to4 prefix src =
      if prefix6_contains prefix src then extract (prefix_len prefix.len) src else err einval
