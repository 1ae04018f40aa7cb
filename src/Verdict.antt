-- ===== src/Verdict.antt =====
-- The verdicts of mod/common/translation_state.c: a verdict, the counter that is incremented, and
-- the ICMP error that is asked for (`state->result`).
use jool.Prelude.{Option, none, some}
use jool.Types.{Verdict}

-- The counters (`enum jool_stat_id`) that the modelled steps increment.
pub data Jstat : Type 0 where
  jstat_unknown jstat_enomem jstat_so_exists jstat_syn6_expected jstat_syn4_expected jstat_v4_syn
        jstat_type1pkt jstat_type2pkt jstat_so_full jstat_untranslatable_dst6
        jstat_untranslatable_dst4 jstat_mask_domain_not_found jstat_bib6_not_found
        jstat_bib4_not_found jstat_adf jstat_hairpin_loop jstat_pool6_mismatch jstat_pool4_mismatch
        jstat_icmp6_filter jstat_unknown_l4_proto jstat_session_not_found jstat_6056_f
        jstat_xlator_disabled jstat_pool6_unset :
      Jstat

-- `enum icmp_errcode`.
pub data IcmpErrcode : Type 0 where
  icmperr_addr_unreachable icmperr_port_unreachable icmperr_filter : IcmpErrcode

pub record Outcome : Type 0 where
  pub verdict : Verdict
  pub stat : Option Jstat
  pub icmp : Option IcmpErrcode

abbrev pub continue : Outcome
continue = record { verdict = Verdict.continue; stat = none; icmp = none }

abbrev pub drop : Jstat → Outcome
drop stat = record { verdict = Verdict.drop; stat = some stat; icmp = none }

abbrev pub drop_icmp : Jstat → IcmpErrcode → Outcome
drop_icmp stat icmp = record { verdict = Verdict.drop; stat = some stat; icmp = some icmp }

abbrev pub untranslatable : Jstat → Outcome
untranslatable stat = record { verdict = Verdict.untranslatable; stat = some stat; icmp = none }

abbrev pub untranslatable_icmp : Jstat → IcmpErrcode → Outcome
untranslatable_icmp stat icmp = record {
  verdict = Verdict.untranslatable;
  stat = some stat;
  icmp = some icmp;
}

abbrev pub stolen : Jstat → Outcome
stolen stat = record { verdict = Verdict.stolen; stat = some stat; icmp = none }
