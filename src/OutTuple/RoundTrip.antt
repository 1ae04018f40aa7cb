-- ===== src/OutTuple/RoundTrip.antt =====
-- A reply is translated back to the addresses that the packet had
-- (mod/common/steps/compute_outgoing_tuple.c).
use jool.Prelude.{ℕ, ◌≡◌, refl, sym, ap, ◌∙◌, Bool, if◌then◌else◌, some, arith}
use jool.Types.{
  InAddr, In6Addr, Ipv4TransportAddr, Ipv6TransportAddr, L4Protocol, icmp, tuple4, tuple6, Result,
  ok, err,
}
use jool.Rfc6052.{rfc6052_4to6}
use jool.Rfc6052.RoundTrip.{ComparesPrefix, HasZeroSuffix, rfc6052_4to6-6to4}
use jool.Bib.Table.{BibKey, Entries}
use jool.Bib.Find.{is_icmp}
use jool.Filtering.{Bib, get_table, Xlator, Packet6, Packet4}
use jool.OutTuple.{
  out, known, find_bib, bib_find6, bib_find4, out6_to, out6_with, out4_to, out4_with,
  compute_out_tuple6, compute_out_tuple4,
}

-- What a translated packet says of the entry that translated it.
out6_to-out :
    (p : Packet6) (key : BibKey) (r : Result InAddr) (src dst : Ipv4TransportAddr) (l : L4Protocol)
    → out6_to p key r ≡ out (tuple4 src dst l)
    → (src ≡ key.src4)
      × (r ≡ ok dst.l3)
      × (dst.l4 ≡ (if is_icmp p.proto then key.src4.l4 else p.dst.l4))
      × (l ≡ p.proto)
unfolding out6_to
out6_to-out p key (err e) src dst l h = absurd (cc h)
out6_to-out p key (ok a) src dst l h = ground arith

reply_port :
    (l : L4Protocol) (s d a b : ℕ)
    → (l ≡ icmp → d ≡ s)
    → a ≡ (if is_icmp l then b else d)
    → (if is_icmp l then s else a) ≡ d
reply_port icmp s d a b i e = sym (i refl)
reply_port _ s d a b i e = e

module _ (f : In6Addr → In6Addr → ℕ → Bool) (law : ComparesPrefix f) where
  reply :
      (x : Xlator) (p : Packet6) (q : Packet4) (key : BibKey)
      → (p.proto ≡ icmp → p.dst.l4 ≡ p.src.l4)
      → key.src6 ≡ p.src
      → q.proto ≡ p.proto
      → rfc6052_4to6 x.pool6 q.src.l3 ≡ ok p.dst.l3
      → q.src.l4 ≡ (if is_icmp p.proto then key.src4.l4 else p.dst.l4)
      → out4_to q key (rfc6052_4to6 x.pool6 q.src.l3) ≡ out (tuple6 p.dst p.src p.proto)
  unfolding out4_to
  reply x p q key i k l r e =
      ap (out4_to q key) r
      ∙ ap (λ l4. out (tuple6 (record { l3 = p.dst.l3; l4 = l4 }) key.src6 q.proto))
          (ap (λ l. if is_icmp l then key.src6.l4 else q.src.l4) l
            ∙ ap (λ (s : Ipv6TransportAddr). if is_icmp p.proto then s.l4 else q.src.l4) k
            ∙ reply_port p.proto p.src.l4 p.dst.l4 q.src.l4 key.src4.l4 i e)
      ∙ ap (λ src. out (tuple6 p.dst src q.proto)) k
      ∙ ap (λ l. out (tuple6 p.dst p.src l)) l

  -- When an IPv6 packet, whose destination has no stray bits, is translated by a BIB entry
  -- of its source, an IPv4 packet from the destination of the outgoing tuple that the same entry
  -- translates comes out with the packet's own addresses, exchanged. In pings, the packet's two
  -- identifiers are the same.
  pub compute_out_tuple4-reply :
      (x : Xlator) (db : Bib) (p : Packet6) (q : Packet4) (forth back : Entries) (key : BibKey)
      (src dst : Ipv4TransportAddr) (l : L4Protocol)
      → HasZeroSuffix x.pool6.len p.dst.l3
      → (p.proto ≡ icmp → p.dst.l4 ≡ p.src.l4)
      → known forth ≡ some key
      → known back ≡ some key
      → key.src6 ≡ p.src
      → compute_out_tuple6 f x db p forth ≡ out (tuple4 src dst l)
      → q.src ≡ dst
      → q.proto ≡ l
      → compute_out_tuple4 x db q back ≡ out (tuple6 p.dst p.src p.proto)
  unfolding compute_out_tuple6 compute_out_tuple4 out6_with out4_with find_bib
  compute_out_tuple4-reply x db p q forth back key src dst l z i e b k h s r =
      let (_, addr, port, proto) = out6_to-out p key _ src dst l (
        sym (ap (λ o. out6_with f x p (find_bib o (bib_find6 (get_table db p.proto) p.src))) e)
        ∙ h) in
      ap (λ o. out4_with x q (find_bib o (bib_find4 (get_table db q.proto) q.dst))) b
      ∙ reply x p q key i k (r ∙ proto)
          (ap (λ (t : Ipv4TransportAddr). rfc6052_4to6 x.pool6 t.l3) s
            ∙ rfc6052_4to6-6to4 f law x.pool6 p.dst.l3 dst.l3 z addr)
          (ap (λ (t : Ipv4TransportAddr). t.l4) s ∙ port)
