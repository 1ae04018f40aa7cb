-- ===== src/Pool4/Db/Start.antt =====
-- Where the iteration of a mask domain starts (`mask_domain_find`, mod/common/db/pool4/db.c).
use Prim.Native.Nat.{min, max}
use mathlib.Core.List.{append_assoc}
use native.Mathlib.Nat.{mod-lt}
use jool.Prelude.{
  ℕ, zero, suc, ◌+◌, ◌-◌, ◌/◌, ◌%◌, ◌==◌, ◌^◌, ◌≤◌, ◌<◌, ◌≡◌, refl, sym, ap, subst, ◌∙◌, inl, inr,
  true, false, leb, leb→le, Bool-cases, if◌then◌else◌, List, [], ◌∷◌, ◌++◌, Option, some, Cursor,
  whole, length, length-append, arith,
}
use jool.Types.{
  InAddr, Ipv4TransportAddr, Ipv6TransportAddr, Ipv6Prefix, Ipv4Range, L4Protocol, taddr4,
}
use jool.Verdict.{drop, jstat_mask_domain_not_found}
use jool.Pool4.MaskDomain.{MaskDomain, port_range_count}
use jool.Pool4.MaskDomain.Rotation.{
  AllOrdered, IsDomain, taddrs_from, range_taddrs, all_taddrs, all_taddrs-append, rotation,
}
use jool.Pool4.MaskDomain.Budget.{budget, Gives, mask_domain_next-Gives}
use jool.Pool4.Db.{
  Pool4, Pool4Table, DomainEnv, DomainFound, domain, no_domain, compute_max_iterations, Position,
  seek, domain_at, table_domain, hashed_domain, mask_domain_find, is_empty, find_empty,
  find_by_mark, get_tree,
}

length-taddrs_from : (a : InAddr) (lo n : ℕ) → length (taddrs_from a lo n) ≡ n
length-taddrs_from a lo zero = refl
length-taddrs_from a lo (suc n) = omega (arith, length-taddrs_from a (lo + 1) n)

taddrs_from-append :
    (a : InAddr) (lo n k : ℕ)
    → taddrs_from a lo (n + k) ≡ taddrs_from a lo n ++ taddrs_from a (lo + n) k
taddrs_from-append a lo zero k = ground arith
taddrs_from-append a lo (suc n) k =
    let e : suc n + k ≡ suc (n + k) = omega arith in
    let f : lo + 1 + n ≡ lo + suc n = omega arith in
    ap (taddrs_from a lo) e
    ∙ ap (λ xs. taddr4 a lo ∷ xs) (taddrs_from-append a (lo + 1) n k)
    ∙ ap (λ j. taddr4 a lo ∷ (taddrs_from a (lo + 1) n ++ taddrs_from a j k)) f

-- A position in the ranges, `k` addresses behind the first one.
pub record Starts (ranges : List Ipv4Range) (k : ℕ) (p : Position) : Type 0 where
  pub list : ranges ≡ whole p.0
  pub low : p.0.here.ports.min ≤ p.1
  pub high : p.1 ≤ p.0.here.ports.max + 1
  pub skipped : k ≡ length (all_taddrs p.0.before) + (p.1 - p.0.here.ports.min)

Sought : List Ipv4Range → ℕ → Option Position → Type 0
Sought ranges k o = (p : Position) × (o ≡ some p) × Starts ranges k p

seek_here :
    (offset : ℕ) (before : List Ipv4Range) (r : Ipv4Range) (rs : List Ipv4Range)
    → leb offset (port_range_count r.ports) ≡ true
    → seek offset before (r ∷ rs)
      ≡ some (record { before = before; here = r; after = rs }, r.ports.min + offset)
unfolding seek
seek_here offset before r rs h = ground arith

seek_on :
    (offset : ℕ) (before : List Ipv4Range) (r : Ipv4Range) (rs : List Ipv4Range)
    → leb offset (port_range_count r.ports) ≡ false
    → seek offset before (r ∷ rs) ≡ seek (offset - port_range_count r.ports) (before ++ (r ∷ [])) rs
unfolding seek
seek_on offset before r rs h = ground arith

leb-false : (a b : ℕ) → leb a b ≡ false → b < a
leb-false a b h = ground arith

length-all_cons :
    (r : Ipv4Range) (rs : List Ipv4Range)
    → r.ports.min ≤ r.ports.max
    → length (all_taddrs (r ∷ rs)) ≡ port_range_count r.ports + length (all_taddrs rs)
unfolding port_range_count
length-all_cons r rs v = omega (
  arith,
  length-append (range_taddrs r) (all_taddrs rs),
  length-taddrs_from r.prefix.addr r.ports.min (r.ports.max + 1 - r.ports.min),
)

length-all_snoc :
    (before : List Ipv4Range) (r : Ipv4Range)
    → r.ports.min ≤ r.ports.max
    → length (all_taddrs (before ++ (r ∷ [])))
      ≡ length (all_taddrs before) + port_range_count r.ports
length-all_snoc before r v = omega (
  arith,
  ap length (all_taddrs-append before (r ∷ [])),
  length-append (all_taddrs before) (all_taddrs (r ∷ [])),
  length-all_cons r [] v,
)

-- The range at hand holds the offset.
here-Starts :
    (offset : ℕ) (before : List Ipv4Range) (r : Ipv4Range) (rs : List Ipv4Range)
    → r.ports.min ≤ r.ports.max
    → offset ≤ port_range_count r.ports
    → Starts
        (before ++ (r ∷ rs))
        (length (all_taddrs before) + offset)
        (record { before = before; here = r; after = rs }, r.ports.min + offset)
unfolding port_range_count
here-Starts offset before r rs v h = record {
  list = refl;
  low = omega arith;
  high = omega (arith, v, h);
  skipped = omega arith;
}

-- It does not: the search goes on behind it.
on-Sought :
    (offset : ℕ) (before : List Ipv4Range) (r : Ipv4Range) (rs : List Ipv4Range)
    (o : Option Position)
    → r.ports.min ≤ r.ports.max
    → port_range_count r.ports < offset
    → Sought
        ((before ++ (r ∷ [])) ++ rs)
        (length (all_taddrs (before ++ (r ∷ []))) + (offset - port_range_count r.ports))
        o
    → Sought (before ++ (r ∷ rs)) (length (all_taddrs before) + offset) o
unfolding Sought
on-Sought offset before r rs o v h (p, q, st) = (
  p,
  q,
  record {
    list = sym (append_assoc before (r ∷ []) rs) ∙ st.list;
    low = st.low;
    high = st.high;
    skipped = omega (arith, st.skipped, h, length-all_snoc before r v);
  },
)

seek-Sought :
    (offset : ℕ) (before ranges : List Ipv4Range)
    → AllOrdered ranges
    → offset < length (all_taddrs ranges)
    → Sought (before ++ ranges) (length (all_taddrs before) + offset) (seek offset before ranges)
unfolding Sought
seek-Sought offset before [] v h = absurd (omega (arith, h))
seek-Sought offset before (r ∷ rs) v h = elim (Bool-cases (leb offset (port_range_count r.ports))) [
  | inl e ↦ (_, seek_here offset before r rs e, here-Starts offset before r rs v.0 (leb→le _ _ e))
  | inr e ↦
      let big = leb-false offset (port_range_count r.ports) e in
      subst (Sought (before ++ (r ∷ rs)) (length (all_taddrs before) + offset))
        (sym (seek_on offset before r rs e))
        (on-Sought offset before r rs _ v.0 big (
          seek-Sought (offset - port_range_count r.ports) (before ++ (r ∷ [])) rs v.1
            (omega (arith, h, big, length-all_cons r rs v.0))))
]

minus_zero : (n : ℕ) → n - 0 ≡ n
minus_zero n = omega arith

positive : (n m : ℕ) → 0 < n → 0 < (if m == 0 then n else min n m)
positive n m h = ground arith

-- A fresh domain over ranges, which will give their addresses from the `k`th on, and then those
-- before it.
pub record StartsAt (ranges : List Ipv4Range) (k : ℕ) (m : MaskDomain) : Type 0 where
  pub valid : IsDomain m
  pub fresh : m.taddr_counter ≡ 0
  pub behind : List Ipv4TransportAddr
  pub ahead : List Ipv4TransportAddr
  pub split : all_taddrs ranges ≡ behind ++ ahead
  pub count : length behind ≡ k
  pub order : rotation m ≡ ahead ++ behind

AllOrdered-whole :
    (xs : List Ipv4Range) (r : Ipv4Range) (ys : List Ipv4Range)
    → AllOrdered (xs ++ (r ∷ ys))
    → AllOrdered xs × (r.ports.min ≤ r.ports.max) × AllOrdered ys
AllOrdered-whole [] r ys h = (tt, h.0, h.1)
AllOrdered-whole (x ∷ xs) r ys h = let (a, b, c) = AllOrdered-whole xs r ys h.1 in ((h.0, a), b, c)

-- The addresses of a range, cut at a port.
range_cut :
    (r : Ipv4Range) (port : ℕ)
    → r.ports.min ≤ port
    → port ≤ r.ports.max + 1
    → range_taddrs r
      ≡ taddrs_from r.prefix.addr r.ports.min (port - r.ports.min)
        ++ taddrs_from r.prefix.addr port (r.ports.max + 1 - port)
range_cut r port lo hi =
    let e : r.ports.max + 1 - r.ports.min ≡ (port - r.ports.min) + (r.ports.max + 1 - port) =
      omega (arith, lo, hi) in
    let f : r.ports.min + (port - r.ports.min) ≡ port = omega (arith, lo) in
    ap (taddrs_from r.prefix.addr r.ports.min) e
    ∙ taddrs_from-append r.prefix.addr r.ports.min (port - r.ports.min) (r.ports.max + 1 - port)
    ∙ ap
        (λ lo.
          taddrs_from r.prefix.addr r.ports.min (port - r.ports.min)
          ++ taddrs_from r.prefix.addr lo (r.ports.max + 1 - port))
        f

all_taddrs-cut :
    (c : Cursor Ipv4Range) (port : ℕ)
    → c.here.ports.min ≤ port
    → port ≤ c.here.ports.max + 1
    → all_taddrs (whole c)
      ≡ (all_taddrs c.before
          ++ taddrs_from c.here.prefix.addr c.here.ports.min (port - c.here.ports.min))
        ++ (taddrs_from c.here.prefix.addr port (c.here.ports.max + 1 - port) ++ all_taddrs c.after)
all_taddrs-cut c port lo hi =
    all_taddrs-append c.before (c.here ∷ c.after)
    ∙ ap (λ xs. all_taddrs c.before ++ (xs ++ all_taddrs c.after)) (range_cut c.here port lo hi)
    ∙ simp append_assoc

abbrev at_position : Pool4Table → ℕ → Position → MaskDomain
at_position table mark p = record {
  pool_mark = mark;
  taddr_count = table.taddr_count;
  taddr_counter = 0;
  max_iterations = compute_max_iterations table;
  ranges = p.0;
  next_port = p.1;
  dynamic = false;
}

at_position-StartsAt :
    (table : Pool4Table) (mark k : ℕ) (p : Position)
    → AllOrdered table.ranges
    → Starts table.ranges k p
    → StartsAt table.ranges k (at_position table mark p)
at_position-StartsAt table mark k p v st =
    let c = p.0 in
    let here = taddrs_from c.here.prefix.addr c.here.ports.min (p.1 - c.here.ports.min) in
    let (a, b, d) = AllOrdered-whole c.before c.here c.after (subst AllOrdered st.list v) in
    record {
      valid = record { before = a; here = b; after = d; low = st.low; high = st.high };
      fresh = refl;
      behind = all_taddrs c.before ++ here;
      ahead = taddrs_from c.here.prefix.addr p.1 (c.here.ports.max + 1 - p.1) ++ all_taddrs c.after;
      split = ap all_taddrs st.list ∙ all_taddrs-cut c p.1 st.low st.high;
      count = omega (
        arith,
        st.skipped,
        length-append (all_taddrs c.before) here,
        length-taddrs_from c.here.prefix.addr c.here.ports.min (p.1 - c.here.ports.min),
      );
      order = simp append_assoc;
    }

-- How many candidates the options of the table allow, where 0 is no limit: what the user set, or a
-- 128th of the addresses, which is at least 1024 and at most 8192.
abbrev pub tries : Pool4Table → ℕ
tries table =
    if table.iterations_infinite
    then 0
    else if table.iterations_auto
    then max 1024 (min 8192 (table.taddr_count / 128))
    else table.max_iterations_allowed

compute_max_iterations_lem : (table : Pool4Table) → compute_max_iterations table ≡ tries table
unfolding compute_max_iterations
compute_max_iterations_lem table = ground arith

-- How many addresses the domain gives: all of the table's, or as many as the options allow.
abbrev pub allowed : Pool4Table → ℕ
allowed table =
    let n = length (all_taddrs table.ranges) in if tries table == 0 then n else min n (tries table)

at_position-budget :
    (table : Pool4Table) (mark : ℕ) (p : Position)
    → table.taddr_count ≡ length (all_taddrs table.ranges)
    → budget (at_position table mark p) ≡ allowed table
at_position-budget table mark p c =
    ap
      (λ n.
        (if compute_max_iterations table == 0 then n else min n (compute_max_iterations table)) - 0)
      c
    ∙ ap
        (λ m.
          (if m == 0
            then length (all_taddrs table.ranges)
            else min (length (all_taddrs table.ranges)) m)
          - 0)
        (compute_max_iterations_lem table)
    ∙ minus_zero (allowed table)

allowed_pos : (table : Pool4Table) → 0 < length (all_taddrs table.ranges) → 0 < allowed table
allowed_pos table h = positive (length (all_taddrs table.ranges)) (tries table) h

-- A domain is found, and starts at an offset. It has the budget of the table, and its first call
-- gives an address: `Gives` says which, and what is left.
pub record FindsAt (table : Pool4Table) (k : ℕ) (found : DomainFound) : Type 0 where
  pub masks : MaskDomain
  pub result : found ≡ domain masks
  pub starts : StartsAt table.ranges k masks
  pub permitted : budget masks ≡ allowed table
  pub gives : Gives masks

table_domain-FindsAt :
    (env : DomainEnv) (mark offset : ℕ) (table : Pool4Table)
    → env.alloc_domain ≡ true
    → AllOrdered table.ranges
    → table.taddr_count ≡ length (all_taddrs table.ranges)
    → offset % table.taddr_count < length (all_taddrs table.ranges)
    → FindsAt table (offset % table.taddr_count) (table_domain env mark offset (some table))
unfolding table_domain domain_at Sought
table_domain-FindsAt env mark offset table a v c h =
    let k = offset % table.taddr_count in
    let zero_plus : 0 + k ≡ k = omega arith in
    let (p, q, st) =
      subst (λ j. Sought table.ranges j (seek k [] table.ranges)) zero_plus
        (seek-Sought k [] table.ranges v h) in
    record {
      masks = at_position table mark p;
      result =
          ap
            (λ b.
              if b
              then domain_at table mark (seek k [] table.ranges)
              else no_domain (drop jstat_mask_domain_not_found))
            a
          ∙ ap (domain_at table mark) q;
      starts = at_position-StartsAt table mark k p v st;
      permitted = at_position-budget table mark p c;
      gives =
          mask_domain_next-Gives (at_position table mark p)
            (at_position-StartsAt table mark k p v st).valid
            (subst (λ n. 0 < n) (sym (at_position-budget table mark p c))
              (allowed_pos table (omega (arith, h))));
    }

-- Where the pool is not empty, the mark has a table, whose counter is that of its addresses and not
-- 0 and whose ranges are not empty, and the hash and the memory are there, a domain is found: it is
-- fresh, its rotation has the table's addresses in order from the one at the offset on, and then those
-- before it, and it will give as many of them as the table's options allow, all if they set no limit:
-- at least one, the head of the rotation. The warning on the counter is never reached.
pub mask_domain_find-FindsAt :
    (env : DomainEnv) (pool : Pool4) (pool6 : Ipv6Prefix) (proto : L4Protocol) (mark hash : ℕ)
    (dst6 : Ipv6TransportAddr) (table : Pool4Table)
    → env.hash ≡ some hash
    → env.alloc_domain ≡ true
    → is_empty pool ≡ false
    → find_by_mark (get_tree pool.tree_mark proto) mark ≡ some table
    → AllOrdered table.ranges
    → table.taddr_count ≡ length (all_taddrs table.ranges)
    → 0 < table.taddr_count
    → FindsAt table
        (((hash + env.next_ephemeral) % 2 ^ 32) % table.taddr_count)
        (mask_domain_find env pool pool6 proto mark dst6)
unfolding mask_domain_find hashed_domain
mask_domain_find-FindsAt env pool pool6 proto mark hash dst6 table e a n t v c z =
    let offset = (hash + env.next_ephemeral) % 2 ^ 32 in
    let f = table_domain-FindsAt env mark offset table a v c (omega (arith, c, mod-lt offset z)) in
    record {
      masks = f.masks;
      result =
          ap (hashed_domain env pool pool6 proto mark dst6) e
          ∙ ap
              (λ b.
                if b
                then find_empty env pool6 offset dst6
                else table_domain env mark offset
                    (find_by_mark (get_tree pool.tree_mark proto) mark))
              n
          ∙ ap (table_domain env mark offset) t
          ∙ f.result;
      starts = f.starts;
      permitted = f.permitted;
      gives = f.gives;
    }
