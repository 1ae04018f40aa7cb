-- ===== src/Bib/Count.antt =====
-- `pkt_count` and the two gauges of mod/common/db/bib/db.c count what the table holds: the
-- invariant, and the lemmas about the lists that it counts.
pub mod Fate
pub mod Search
pub mod Add
pub mod Tcp
pub mod Remove
pub mod Static
pub mod Reach
use jool.Prelude.{
  ℕ, suc, ◌+◌, ◌≡◌, refl, ap, ◌∙◌, Bool, true, false, not, List, [], ◌∷◌, ◌++◌, Option, none, some,
  Cursor, whole, without, push_before, find_first, keep, length, length-append, Bool-cases, arith,
}
use jool.Bib.Table.{TabledBib, TabledSession, BibTable}
use jool.Bib.Find.{stored_pkts}

abbrev pub has_pkt : Option ℕ → ℕ
has_pkt none = 0
has_pkt (some skb) = 1

-- How many sessions of a list hold a packet.
unfoldable pub stored : List TabledSession → ℕ
unfolding stored_pkts
stored ss = length (stored_pkts ss)

-- The counters of a table are right.
pub record IsCounted (t : BibTable) : Type 0 where
  pub pkts : t.pkt_count ≡ stored t.sessions + length t.pkt_queue
  pub bibs : t.jstat_bib_entries ≡ length t.bibs
  pub sessions : t.jstat_sessions ≡ length t.sessions

pub stored-nil : stored [] ≡ 0
unfolding stored
stored-nil = refl

pub stored-cons :
    (s : TabledSession) (ss : List TabledSession) → stored (s ∷ ss) ≡ has_pkt s.stored + stored ss
unfolding stored
stored-cons s ss = ground arith

pub stored-append : (xs ys : List TabledSession) → stored (xs ++ ys) ≡ stored xs + stored ys
stored-append [] ys = omega (arith, stored-nil)
stored-append (x ∷ xs) ys =
    omega (arith, stored-cons x (xs ++ ys), stored-cons x xs, stored-append xs ys)

pub stored-whole :
    (c : Cursor TabledSession) → stored (whole c) ≡ stored (without c) + has_pkt c.here.stored
stored-whole c = omega (
  arith,
  stored-append c.before (c.here ∷ c.after),
  stored-append c.before c.after,
  stored-cons c.here c.after,
)

pub length-whole {ℓ} : {A : Type ℓ} (c : Cursor A) → length (whole c) ≡ suc (length (without c))
length-whole c =
    omega (arith, length-append c.before (c.here ∷ c.after), length-append c.before c.after)

pub stored-snoc :
    (ss : List TabledSession) (s : TabledSession)
    → stored (ss ++ (s ∷ [])) ≡ stored ss + has_pkt s.stored
stored-snoc ss s = omega (arith, stored-append ss (s ∷ []), stored-cons s [], stored-nil)

pub length-snoc {ℓ} : {A : Type ℓ} (xs : List A) (x : A) → length (xs ++ (x ∷ [])) ≡ suc (length xs)
length-snoc xs x = omega (arith, length-append xs (x ∷ []))

-- A search shows an element of the list that passes the test.
pub record Finds {ℓ} {A : Type ℓ} (p : A → Bool) (xs : List A) (c : Cursor A) : Type ℓ where
  pub list : xs ≡ whole c
  pub passes : p c.here ≡ true

push-Finds {ℓ} :
    {A : Type ℓ} (p : A → Bool) (x : A) (xs : List A) (o : Option (Cursor A))
    → ((c : Cursor A) → o ≡ some c → Finds p xs c)
    → (c : Cursor A) → push_before x o ≡ some c
    → Finds p (x ∷ xs) c
push-Finds p x xs none ih c h = absurd (cc h)
push-Finds p x xs (some d) ih c h =
    let f = ih d refl in record { list = cc (f.list); passes = cc (f.passes) }

pub find_first-Finds {ℓ} :
    {A : Type ℓ} (p : A → Bool) (xs : List A) (c : Cursor A)
    → find_first p xs ≡ some c
    → Finds p xs c
unfolding find_first
find_first-Finds p [] c h = absurd (cc h)
find_first-Finds {A} p (x ∷ xs) c h = step (λ d q. find_first-Finds p xs d q) (p x) refl h
  where
    step :
        ((d : Cursor A) → find_first p xs ≡ some d → Finds p xs d)
        → (b : Bool) → p x ≡ b
        → (elim b [
          | true ↦ some (record { before = []; here = x; after = xs })
          | false ↦ push_before x (find_first p xs)
        ])
          ≡ some c
        → Finds p (x ∷ xs) c
    step ih true e q = record { list = ground arith; passes = ground arith }
    step ih false e q = push-Finds p x xs (find_first p xs) ih c q

-- A list is split by a test without loss.
pub stored-keep :
    (p : TabledSession → Bool) (ss : List TabledSession)
    → stored (keep (λ s. not (p s)) ss) + stored (keep p ss) ≡ stored ss
unfolding keep
stored-keep p [] = omega (arith, stored-nil)
stored-keep p (s ∷ ss) = ground (
  arith,
  stored-keep p ss,
  stored-cons s ss,
  stored-cons s (keep p ss),
  stored-cons s (keep (λ s. not (p s)) ss),
)

pub length-keep {ℓ} :
    {A : Type ℓ} (p : A → Bool) (xs : List A)
    → length (keep (λ x. not (p x)) xs) + length (keep p xs) ≡ length xs
unfolding keep
length-keep p [] = refl
length-keep p (x ∷ xs) = ground (arith, length-keep p xs)
