-- ===== src/Filtering/Frame.antt =====
-- What `filtering_and_updating` (mod/common/steps/filtering_and_updating.c) does to the three tables.
use jool.Prelude.{
  ℕ, ◌≡◌, ◌≢◌, refl, sym, subst, ◌⊎◌, Bool, true, false, not, if_cases, Option, none, some, arith,
}
use jool.Types.{
  In6Addr, InAddr, L4Protocol, tcp, udp, icmp, other, Result, ok, err, Verdict, esrch, eperm,
  taddr4,
}
use jool.Verdict.{Outcome}
use jool.TcpMachine.{tcp_state_machine}
use jool.Pool4.MaskDomain.{MaskDomain}
use jool.Pool4.Db.{DomainFound, domain, no_domain, pool4db_contains}
use jool.Bib.Table.{BibTable, Entries}
use jool.Bib.Add.{AddResult, added, not_added, undefined, bib_add6, bib_add4}
use jool.Bib.Tcp.{TcpResult, judged, undefined_tcp, bib_add_tcp6, bib_add_tcp4}
use jool.Bib.Count.{IsCounted}
use jool.Bib.Count.Add.{bib_add6-IsCounted, bib_add4-IsCounted}
use jool.Bib.Count.Tcp.{bib_add_tcp6-IsCounted, bib_add_tcp4-IsCounted}
use jool.Bib.Find.{NewConn}
use jool.Filtering.{
  Bib, counter_of, Xlator, Packet6, Packet4, Filtered, set_table, get_table, after_add6, add6_in,
  simple6_in, simple6_to, ipv6_simple, after_add4, add4_in, simple4_to, ipv4_simple, conn4,
}
use jool.Filtering.Tcp.{
  input6, input4, succeed_if, after_tcp, tcp6_in, tcp6_to, ipv6_tcp, tcp4_to, ipv4_tcp,
}
use jool.Filtering.Main.{
  update6, update4, pool6_contains, filtering_and_updating6, filtering_and_updating4,
}

-- The counters of the three tables are right.
pub record AllCounted (db : Bib) : Type 0 where
  pub of_tcp : IsCounted db.tcp_table
  pub of_udp : IsCounted db.udp_table
  pub of_icmp : IsCounted db.icmp_table

set_table-AllCounted :
    (db : Bib) (proto : L4Protocol) (t : BibTable)
    → AllCounted db
    → IsCounted t
    → AllCounted (set_table db proto t)
unfolding set_table
set_table-AllCounted db tcp t h c = record { of_tcp = c; of_udp = h.of_udp; of_icmp = h.of_icmp }
set_table-AllCounted db udp t h c = record { of_tcp = h.of_tcp; of_udp = c; of_icmp = h.of_icmp }
set_table-AllCounted db icmp t h c = record { of_tcp = h.of_tcp; of_udp = h.of_udp; of_icmp = c }
set_table-AllCounted db other t h c = h

get_table-IsCounted :
    (db : Bib) (proto : L4Protocol) (t : BibTable)
    → AllCounted db
    → get_table db proto ≡ some t
    → IsCounted t
unfolding get_table
get_table-IsCounted db tcp t h e = subst IsCounted (cc e) h.of_tcp
get_table-IsCounted db udp t h e = subst IsCounted (cc e) h.of_udp
get_table-IsCounted db icmp t h e = subst IsCounted (cc e) h.of_icmp
get_table-IsCounted db other t h e = absurd (cc e)

-- The errors do not matter to the tables.
after_add6-bib : (db : Bib) (n : ℕ) (r : AddResult) → (after_add6 db n r).bib ≡ db
unfolding after_add6
after_add6-bib db n (added e) = refl
after_add6-bib db n (not_added e) = refl
after_add6-bib db n undefined = refl

after_add4-bib : (db : Bib) (r : AddResult) → (after_add4 db r).bib ≡ db
unfolding after_add4
after_add4-bib db (added e) = refl
after_add4-bib db (not_added esrch) = refl
after_add4-bib db (not_added eperm) = refl
after_add4-bib db (not_added _) = refl
after_add4-bib db undefined = refl

succeed_if-bib :
    (db : Bib) (n : ℕ) (o : Outcome) (e : Entries) (v : Verdict) → (succeed_if db n o e v).bib ≡ db
unfolding succeed_if
succeed_if-bib db n o e Verdict.continue = refl
succeed_if-bib db n o e _ = refl

after_tcp-bib : (db : Bib) (n : ℕ) (r : TcpResult) → (after_tcp db n r).bib ≡ db
unfolding after_tcp
after_tcp-bib db n (judged o e) = succeed_if-bib db n o e o.verdict
after_tcp-bib db n undefined_tcp = refl

add6_in-AllCounted :
    (x : Xlator) (db : Bib) (p : Packet6) (a : InAddr) (m : MaskDomain) (o : Option BibTable)
    → get_table db p.proto ≡ o
    → AllCounted db
    → AllCounted (add6_in x db p a m o).bib
unfolding add6_in
add6_in-AllCounted x db p a m none e h = h
add6_in-AllCounted x db p a m (some t) e h =
    let new : NewConn = record { src6 = p.src; dst6 = p.dst; dst4 = taddr4 a p.dst.l4 } in
    let r = bib_add6 x.env t m new in
    let c = bib_add6-IsCounted x.env t m new (get_table-IsCounted db p.proto t h e) in
    subst AllCounted
      (sym (after_add6-bib (set_table db p.proto r.table) (counter_of r.masks) r.result))
      (set_table-AllCounted db p.proto r.table h c)

simple6_in-AllCounted :
    (x : Xlator) (db : Bib) (p : Packet6) (a : InAddr) (f : DomainFound)
    → AllCounted db
    → AllCounted (simple6_in x db p a f).bib
unfolding simple6_in
simple6_in-AllCounted x db p a (no_domain o) h = h
simple6_in-AllCounted x db p a (domain m) h = add6_in-AllCounted x db p a m _ refl h

simple6_to-AllCounted :
    (x : Xlator) (db : Bib) (p : Packet6) (r : Result InAddr)
    → AllCounted db
    → AllCounted (simple6_to x db p r).bib
unfolding simple6_to
simple6_to-AllCounted x db p (err e) h = h
simple6_to-AllCounted x db p (ok a) h = simple6_in-AllCounted x db p a _ h

add4_in-AllCounted :
    (x : Xlator) (db : Bib) (p : Packet4) (a : In6Addr) (o : Option BibTable)
    → get_table db p.proto ≡ o
    → AllCounted db
    → AllCounted (add4_in x db p a o).bib
unfolding add4_in
add4_in-AllCounted x db p a none e h = h
add4_in-AllCounted x db p a (some t) e h =
    let r = bib_add4 x.env t (conn4 p a) in
    let c = bib_add4-IsCounted x.env t (conn4 p a) (get_table-IsCounted db p.proto t h e) in
    subst AllCounted (sym (after_add4-bib (set_table db p.proto r.table) r.result))
      (set_table-AllCounted db p.proto r.table h c)

simple4_to-AllCounted :
    (x : Xlator) (db : Bib) (p : Packet4) (r : Result In6Addr)
    → AllCounted db
    → AllCounted (simple4_to x db p r).bib
unfolding simple4_to
simple4_to-AllCounted x db p (err e) h = h
simple4_to-AllCounted x db p (ok a) h = add4_in-AllCounted x db p a _ refl h

tcp_only :
    (db : Bib) (t : BibTable)
    → AllCounted db
    → IsCounted t
    → AllCounted (record db { tcp_table = t })
tcp_only db t h c = record { of_tcp = c; of_udp = h.of_udp; of_icmp = h.of_icmp }

tcp6_in-AllCounted :
    (x : Xlator) (db : Bib) (p : Packet6) (a : InAddr) (f : DomainFound)
    → AllCounted db
    → AllCounted (tcp6_in x db p a f).bib
unfolding tcp6_in
tcp6_in-AllCounted x db p a (no_domain o) h = h
tcp6_in-AllCounted x db p a (domain m) h =
    let new : NewConn = record { src6 = p.src; dst6 = p.dst; dst4 = taddr4 a p.dst.l4 } in
    let cb = tcp_state_machine (input6 x p) in
    let r = bib_add_tcp6 x.env cb db.tcp_table m p.tcphdr.syn new in
    let c = bib_add_tcp6-IsCounted x.env cb db.tcp_table m p.tcphdr.syn new h.of_tcp in
    subst AllCounted
      (sym (after_tcp-bib (record db { tcp_table = r.table }) (counter_of r.masks) r.result))
      (tcp_only db r.table h c)

tcp6_to-AllCounted :
    (x : Xlator) (db : Bib) (p : Packet6) (r : Result InAddr)
    → AllCounted db
    → AllCounted (tcp6_to x db p r).bib
unfolding tcp6_to
tcp6_to-AllCounted x db p (err e) h = h
tcp6_to-AllCounted x db p (ok a) h = tcp6_in-AllCounted x db p a _ h

tcp4_to-AllCounted :
    (x : Xlator) (db : Bib) (p : Packet4) (r : Result In6Addr)
    → AllCounted db
    → AllCounted (tcp4_to x db p r).bib
unfolding tcp4_to
tcp4_to-AllCounted x db p (err e) h = h
tcp4_to-AllCounted x db p (ok a) h =
    let cb = tcp_state_machine (input4 x p) in
    let r = bib_add_tcp4 x.env cb db.tcp_table p.tcphdr.syn (conn4 p a) p.skb in
    let c = bib_add_tcp4-IsCounted x.env cb db.tcp_table p.tcphdr.syn (conn4 p a) p.skb h.of_tcp in
    subst AllCounted (sym (after_tcp-bib (record db { tcp_table = r.table }) 0 r.result))
      (tcp_only db r.table h c)

update6-AllCounted :
    (x : Xlator) (db : Bib) (p : Packet6) (l : L4Protocol)
    → AllCounted db
    → AllCounted (update6 x db p l).bib
unfolding update6 ipv6_simple ipv6_tcp
update6-AllCounted x db p udp h = simple6_to-AllCounted x db p _ h
update6-AllCounted x db p tcp h = tcp6_to-AllCounted x db p _ h
update6-AllCounted x db p icmp h =
    if_cases (λ (f : Filtered). AllCounted f.bib) x.drop_icmp6_info h
      (simple6_to-AllCounted x db p _ h)
update6-AllCounted x db p other h = h

update4-AllCounted :
    (x : Xlator) (db : Bib) (p : Packet4) (l : L4Protocol)
    → AllCounted db
    → AllCounted (update4 x db p l).bib
unfolding update4 ipv4_simple ipv4_tcp
update4-AllCounted x db p udp h = simple4_to-AllCounted x db p _ h
update4-AllCounted x db p tcp h = tcp4_to-AllCounted x db p _ h
update4-AllCounted x db p icmp h = simple4_to-AllCounted x db p _ h
update4-AllCounted x db p other h = h

-- Whatever IPv6 packet comes, of any protocol, valid or not, a step that does not use freed memory
-- leaves the counters of the three tables right where they were right before it.
pub filtering_and_updating6-AllCounted :
    (f : In6Addr → In6Addr → ℕ → Bool) (x : Xlator) (db : Bib) (p : Packet6)
    → (filtering_and_updating6 f x db p).outcome ≢ none
    → AllCounted db
    → AllCounted (filtering_and_updating6 f x db p).bib
unfolding filtering_and_updating6
filtering_and_updating6-AllCounted f x db p defined h =
    if_cases (λ (r : Filtered). AllCounted r.bib) (pool6_contains f x p.saddr) h
      (if_cases (λ (r : Filtered). AllCounted r.bib) (not (pool6_contains f x p.daddr)) h
        (if_cases (λ (r : Filtered). AllCounted r.bib) p.is_icmp_error h
          (update6-AllCounted x db p p.proto h)))

-- Whatever IPv4 packet comes, the step leaves the counters of the three tables right where they were
-- right before it.
pub filtering_and_updating4-AllCounted :
    (x : Xlator) (db : Bib) (p : Packet4)
    → AllCounted db
    → AllCounted (filtering_and_updating4 x db p).bib
unfolding filtering_and_updating4
filtering_and_updating4-AllCounted x db p h =
    if_cases (λ (r : Filtered). AllCounted r.bib)
      (not (pool4db_contains x.is_local x.pool4 p.proto p.dst)) h
      (if_cases (λ (r : Filtered). AllCounted r.bib) p.is_icmp_error h
        (update4-AllCounted x db p p.proto h))

-- A packet from pool6, or not to pool6, or an ICMP error, or one of an unknown protocol, changes no
-- table, whatever else it carries.
pub filtering_and_updating6_untouched :
    (f : In6Addr → In6Addr → ℕ → Bool) (x : Xlator) (db : Bib) (p : Packet6)
    → (pool6_contains f x p.saddr ≡ true)
      ⊎ ((pool6_contains f x p.daddr ≡ false) ⊎ ((p.is_icmp_error ≡ true) ⊎ (p.proto ≡ other)))
    → (filtering_and_updating6 f x db p).bib ≡ db
unfolding filtering_and_updating6 update6
filtering_and_updating6_untouched f x db p h = ground arith
