-- ===== src/Joold/Requests.antt =====
-- What mod/common/joold.c does with the sessions that another translator announces: `collision_cb`,
-- `add_new_session`, `joold_sync`. A netlink attribute is what `jnla_get_session_joold` reads from
-- it, `none` where it is malformed.
use jool.Prelude.{
  ◌≡◌, Bool, true, false, ◌&&◌, if◌then◌else◌, inl, inr, List, [], ◌∷◌, Option, none, some, ◌⊎◌,
  Cursor,
}
use jool.Types.{Errno, einval, enoent, esrch, eexist, enomem, enospc, eperm}
use jool.Session.{SessionEntry, fate_timer_slow, fate_preserve, session_equals}
use jool.Filtering.{Bib, get_table, set_table}
use jool.Joold.{JooldConfig}
use jool.Bib.Table.{BibKey, TabledSession, BibTable, Env, tstose}
use jool.Bib.Fate.{FateCb}
use jool.Bib.Find.{Found, old_session, failed, find_bib_session6}
use jool.Bib.Add.{AddResult, added, not_added, undefined, finish_add_session, bib_add_session}
use jool.Pool4.MaskDomain.{MaskDomain}

-- `collision_cb`: the same session is updated, another one is kept.
unfoldable pub collision_cb : SessionEntry → FateCb
unfolding session_equals
collision_cb new old =
    if session_equals old new
    then (
      record old { state = new.state; timer_type = new.timer_type; update_time = new.update_time },
      fate_timer_slow,
    )
    else (old, fate_preserve)

-- The search of `bib_add_session`.
abbrev pub searched : Env → BibTable → SessionEntry → Found
searched env table new =
    (find_bib_session6 env table none (record { src6 = new.src6; dst6 = new.dst6; dst4 = new.dst4 })
      new.src4).result

-- `params.success`, which `collision_cb` sets where it is called.
unfoldable pub found_success : Env → BibTable → SessionEntry → Found → Bool
unfolding session_equals tstose
found_success env table new (old_session key c) = session_equals (tstose env table.proto c.here) new
found_success env table new _ = true

unfoldable pub params_success : Env → BibTable → SessionEntry → Bool
unfolding found_success
params_success env table new = found_success env table new (searched env table new)

-- The value that `add_new_session` returns, by what `bib_add_session` returned. Where the addition
-- is undefined the value stands for nothing.
unfoldable pub returned : AddResult → Bool → Bool
returned (added e) success = true
returned (not_added eexist) success = success
returned (not_added einval) success = false
returned (not_added enoent) success = false
returned (not_added esrch) success = false
returned (not_added enomem) success = false
returned (not_added enospc) success = false
returned (not_added eperm) success = false
returned undefined success = false

pub record Synced : Type 0 where
  pub db : Bib
  pub success : Bool

unfoldable pub add_to_table : Env → Bib → SessionEntry → Option BibTable → Synced
unfolding bib_add_session returned params_success collision_cb set_table
add_to_table env db new none = record { db = db; success = returned (not_added einval) true }
add_to_table env db new (some table) =
    let r = bib_add_session env table new (collision_cb new) in
    record {
      db = set_table db new.proto r.table;
      success = returned r.result (params_success env table new);
    }

unfoldable pub add_new_session : Env → Bib → Option SessionEntry → Synced
unfolding add_to_table get_table
add_new_session env db none = record { db = db; success = false }
add_new_session env db (some new) = add_to_table env db new (get_table db new.proto)

-- The loop of `joold_sync` over the attributes.
unfoldable pub sync_all : Env → Bib → Bool → List (Option SessionEntry) → Synced
unfolding add_new_session
sync_all env db success [] = record { db = db; success = success }
sync_all env db success (attr ∷ rest) =
    let r = add_new_session env db attr in sync_all env r.db (success && r.success) rest

-- `joold_sync`, with what it returns.
unfoldable pub joold_sync :
    JooldConfig → Env → Bib → List (Option SessionEntry) → Bib × Option Errno
unfolding sync_all
joold_sync cfg env db attrs =
    let r = sync_all env db true attrs in
    if cfg.enabled then (r.db, if r.success then none else some einval) else (db, some einval)

-- What the addition returns where the search finds an old session, or the mask taken.
finish-no_error :
    (env : Env) (table : BibTable) (new : SessionEntry) (masks : Option MaskDomain) (cb : FateCb)
    (t : BibTable) (key : BibKey) (c : Cursor TabledSession) (found : Found)
    → (found ≡ old_session key c) ⊎ (found ≡ failed eexist)
    → returned
        (finish_add_session env new cb t masks found).result
        (found_success env table new found)
      ≡ true
unfolding finish_add_session returned found_success
finish-no_error env table new masks cb t key c found (inl e) = rw e
finish-no_error env table new masks cb t key c found (inr e) = rw e

-- `collision_cb` tells that an announced session collides with one that the table holds, but
-- `bib_add_session` returns 0 after it: whenever the search finds an old session, be it the
-- announced one or another, or finds the announced mask taken by another BIB entry, and the
-- entries can be allocated, `add_new_session` reports success.
pub add_new_session-reports :
    (env : Env) (db : Bib) (table : BibTable) (new : SessionEntry) (key : BibKey)
    (c : Cursor TabledSession)
    → env.alloc_entry ≡ true
    → get_table db new.proto ≡ some table
    → (searched env table new ≡ old_session key c) ⊎ (searched env table new ≡ failed eexist)
    → (add_new_session env db (some new)).success ≡ true
unfolding add_new_session add_to_table bib_add_session params_success
add_new_session-reports env db table new key c a t h =
    let s =
      find_bib_session6 env table none
        (record { src6 = new.src6; dst6 = new.dst6; dst4 = new.dst4 }) new.src4 in
    simp (t, a) (finish-no_error env table new s.masks (collision_cb new) s.table key c s.result h)
