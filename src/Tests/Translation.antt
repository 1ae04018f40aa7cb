-- ===== src/Tests/Translation.antt =====
-- Tests of filtering and of the outgoing tuple.
use jool.Prelude.{
  ◌≡◌, ◌≢◌, Bool, Option, none, sym, ap, ◌∙◌, refl, inl, inr, true, false, some, arith,
}
use jool.Types.{tcp, udp, icmp, tuple4, tuple6, taddr4}
use jool.Bib.Table.{init_table, bib_entries}
use jool.Bib.Count.{stored}
use jool.Pool4.Db.{Pool4Trees, no_route}
use jool.Rbtree.{leaf}
use jool.Verdict.{Outcome, continue}
use jool.Rfc6052.{prefix6_contains}
use jool.Filtering.{Bib, Xlator, Packet6, Packet4}
use jool.Filtering.Main.{filtering_and_updating6, filtering_and_updating4}
use jool.Filtering.Frame.{
  AllCounted, filtering_and_updating6-AllCounted, filtering_and_updating4-AllCounted,
  filtering_and_updating6_untouched,
}
use jool.OutTuple.{known, out, compute_out_tuple6, compute_out_tuple4}
use jool.OutTuple.RoundTrip.{compute_out_tuple4-reply}
use jool.Tests.Fixtures.{env, well_known, peer, peer6, pool, host, taddr6, key10, taken}
use jool.Tests.Addresses.{prefix_equal, prefix_equal-ComparesPrefix}

abbrev no_trees : Pool4Trees
no_trees = record { tcp_tree = leaf; udp_tree = leaf; icmp_tree = leaf }

abbrev x : Xlator
x = record {
  enabled = true;
  pool6_set = true;
  pool6 = well_known;
  drop_icmp6_info = false;
  handle_rst_during_fin_rcv = false;
  pool4 = record { tree_mark = no_trees; tree_addr = no_trees };
  is_local = λ a. true;
  domain_env = record {
    hash = some 1;
    next_ephemeral = 0;
    alloc_domain = true;
    predict_route64 = λ addr. no_route continue;
  };
  env = env;
}

abbrev db : Bib
db = record { tcp_table = taken; udp_table = init_table udp; icmp_table = init_table icmp }

db-AllCounted : AllCounted db
unfolding stored
db-AllCounted = record {
  of_tcp = record { pkts = refl; bibs = refl; sessions = refl };
  of_udp = record { pkts = refl; bibs = refl; sessions = refl };
  of_icmp = record { pkts = refl; bibs = refl; sessions = refl };
}

abbrev packet6 : Packet6
packet6 = record {
  src = taddr6 (host 1) 1;
  dst = taddr6 peer6 5000;
  saddr = host 1;
  daddr = peer6;
  proto = tcp;
  is_icmp_error = false;
  tcphdr = record { syn = true; fin = false; rst = false };
  mark = 0;
}

abbrev packet4 : Packet4
packet4 = record {
  src = taddr4 peer 5000;
  dst = taddr4 pool 10;
  proto = tcp;
  is_icmp_error = false;
  tcphdr = record { syn = false; fin = false; rst = false };
  skb = 9;
}

is_defined : Option Outcome → Bool
is_defined none = false
is_defined (some o) = true

packet6_judged : is_defined (filtering_and_updating6 prefix_equal x db packet6).outcome ≡ true
unfolding filtering_and_updating6 is_defined prefix6_contains
packet6_judged = refl

not_both : (b : Bool) → b ≡ true → b ≡ false → ⊥
not_both b e f = absurd (cc (sym e ∙ f))

packet6_defined : (filtering_and_updating6 prefix_equal x db packet6).outcome ≢ none
unfolding is_defined
packet6_defined e =
    not_both (is_defined (filtering_and_updating6 prefix_equal x db packet6).outcome) packet6_judged
      (ap is_defined e)

filtering_and_updating6-AllCounted_example :
    AllCounted (filtering_and_updating6 prefix_equal x db packet6).bib
filtering_and_updating6-AllCounted_example =
    filtering_and_updating6-AllCounted prefix_equal x db packet6 packet6_defined db-AllCounted

filtering_and_updating4-AllCounted_example : AllCounted (filtering_and_updating4 x db packet4).bib
filtering_and_updating4-AllCounted_example =
    filtering_and_updating4-AllCounted x db packet4 db-AllCounted

abbrev stray : Packet6
stray = record packet6 { dst = taddr6 (host 2) 80; daddr = host 2 }

filtering_and_updating6_untouched_example :
    (filtering_and_updating6 prefix_equal x db stray).bib ≡ db
unfolding prefix6_contains
filtering_and_updating6_untouched_example =
    filtering_and_updating6_untouched prefix_equal x db stray (inr (inl refl))

translated :
    compute_out_tuple6 prefix_equal x db packet6 (bib_entries key10)
    ≡ out (tuple4 (taddr4 pool 10) (taddr4 peer 5000) tcp)
unfolding compute_out_tuple6
translated = refl

compute_out_tuple4-reply_example :
    compute_out_tuple4 x db packet4 (bib_entries key10)
    ≡ out (tuple6 (taddr6 peer6 5000) (taddr6 (host 1) 1) tcp)
unfolding prefix6_contains known
compute_out_tuple4-reply_example =
    compute_out_tuple4-reply prefix_equal prefix_equal-ComparesPrefix x db packet6 packet4
      (bib_entries key10) (bib_entries key10) key10 (taddr4 pool 10) (taddr4 peer 5000) tcp
      (ground arith) (λ e. absurd (cc e)) refl refl refl translated refl refl
