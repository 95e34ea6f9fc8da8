-- ===== src/Pages/Messages/Merge.antt =====
-- What `mergeMessages` does to keys and order.
use mathlib.Core.Path.{subst}
use mathlib.Core.List.{append_assoc, append-nil}
use kafkaesque.Prelude.Texts.{includes}
use kafkaesque.Api.Types.{Message}
use kafkaesque.Prelude.{
  eq_iff, eq_refl, inr, inl, Bool-cases, refl, ◌⊎◌, [], ap, false, sym, true, ◌∙◌, arith,
  if◌then◌else◌, map, ◌++◌, ◌≡◌, All, ◌∷◌, List, String,
}
use kafkaesque.Pages.Messages.{message_row_key, merge_from, merge_messages}

abbrev pub keys : List Message → List String
keys ms = map message_row_key ms

-- No text stands twice in the list.
abbrev pub Distinct : List String → Type 0
Distinct [] = Unit
Distinct (s ∷ ss) = (includes ss s ≡ false) × Distinct ss

-- The messages that `mergeMessages` adds.
fresh_from : List String → List Message → List Message
fresh_from seen [] = []
fresh_from seen (m ∷ ms) =
    let skipped = fresh_from seen ms in
    let added = m ∷ fresh_from (message_row_key m ∷ seen) ms in
    if includes seen (message_row_key m) then skipped else added

merge_from-fresh :
    (seen : List String) (next ms : List Message)
    → merge_from seen next ms ≡ next ++ fresh_from seen ms
unfolding merge_from fresh_from
merge_from-fresh seen next [] = sym (append-nil next)
merge_from-fresh seen next (m ∷ ms) = elim (Bool-cases (includes seen (message_row_key m))) [
  | inl e ↦ rw e (merge_from-fresh seen next ms)
  | inr e ↦ rw e (
      merge_from-fresh (message_row_key m ∷ seen) (next ++ m ∷ []) ms
      ∙ append_assoc next (m ∷ []) (fresh_from (message_row_key m ∷ seen) ms))
]

-- A text of the second list stands in the first.
abbrev pub Covered : List String → List String → Type 0
Covered seen ss = All (λ s. includes seen s ≡ true) ss

Covered-cons : (x : String) (seen ss : List String) → Covered seen ss → Covered (x ∷ seen) ss
Covered-cons x seen [] h = tt
Covered-cons x seen (s ∷ ss) (p, h) = (ground arith, Covered-cons x seen ss h)

fresh_from-Covered :
    (seen : List String) (ms : List Message) → Covered seen (keys ms) → fresh_from seen ms ≡ []
unfolding fresh_from
fresh_from-Covered seen [] h = refl
fresh_from-Covered seen (m ∷ ms) (p, h) = rw p (fresh_from-Covered seen ms h)

-- Messages whose keys are there already change nothing.
merge_messages-Covered : (a b : List Message) → Covered (keys a) (keys b) → merge_messages a b ≡ a
unfolding merge_messages
merge_messages-Covered a b h =
    merge_from-fresh (keys a) a b ∙ rw (fresh_from-Covered (keys a) b h) (append-nil a)

includes-append_left :
    (ss us : List String) (s : String) → includes ss s ≡ true → includes (ss ++ us) s ≡ true
includes-append_left [] us s h = absurd (ground arith)
includes-append_left (x ∷ ss) us s h = ground (arith, includes-append_left ss us s)

includes-append_right :
    (ss us : List String) (s : String) → includes us s ≡ true → includes (ss ++ us) s ≡ true
includes-append_right [] us s h = h
includes-append_right (x ∷ ss) us s h = ground (arith, includes-append_right ss us s h)

fresh_from-skip :
    (seen : List String) (m : Message) (ms : List Message)
    → includes seen (message_row_key m) ≡ true
    → fresh_from seen (m ∷ ms) ≡ fresh_from seen ms
unfolding fresh_from
fresh_from-skip seen m ms e = rw e refl

fresh_from-add :
    (seen : List String) (m : Message) (ms : List Message)
    → includes seen (message_row_key m) ≡ false
    → fresh_from seen (m ∷ ms) ≡ m ∷ fresh_from (message_row_key m ∷ seen) ms
unfolding fresh_from
fresh_from-add seen m ms e = rw e refl

-- A first message of a new key is added right after what was there.
pub merge_messages-first :
    (a : List Message) (m : Message) (ms : List Message)
    → includes (keys a) (message_row_key m) ≡ false
    → (rest : List Message) × (merge_messages a (m ∷ ms) ≡ a ++ m ∷ rest)
unfolding merge_messages
merge_messages-first a m ms e =
    (_, merge_from-fresh (keys a) a (m ∷ ms) ∙ ap (λ r. a ++ r) (fresh_from-add (keys a) m ms e))

abbrev CoveredBy : List String → List String → List String → Type 0
CoveredBy seen added ks = All (λ k. (includes seen k ≡ true) ⊎ (includes added k ≡ true)) ks

CoveredBy-shift :
    (k : String) (seen added ks : List String)
    → CoveredBy (k ∷ seen) added ks
    → CoveredBy seen (k ∷ added) ks
CoveredBy-shift k seen added [] h = tt
CoveredBy-shift k seen added (x ∷ ks) (p, h) = (ground arith, CoveredBy-shift k seen added ks h)

CoveredBy-append :
    (seen added ks : List String) → CoveredBy seen added ks → Covered (seen ++ added) ks
CoveredBy-append seen added [] h = tt
CoveredBy-append seen added (x ∷ ks) (p, h) = (
  ground (arith, includes-append_left seen added x, includes-append_right seen added x),
  CoveredBy-append seen added ks h,
)

-- Each incoming key was seen or is among the added ones.
fresh_from-covers :
    (seen : List String) (ms : List Message) → CoveredBy seen (keys (fresh_from seen ms)) (keys ms)
fresh_from-covers seen [] = tt
fresh_from-covers seen (m ∷ ms) = elim (Bool-cases (includes seen (message_row_key m))) [
  | inl e ↦
      subst (λ f. CoveredBy seen (keys f) (keys (m ∷ ms))) (sym (fresh_from-skip seen m ms e))
        (inl e, fresh_from-covers seen ms)
  | inr e ↦
      let k = message_row_key m in
      let added = fresh_from (k ∷ seen) ms in
      subst (λ f. CoveredBy seen (keys f) (keys (m ∷ ms))) (sym (fresh_from-add seen m ms e))
        (
          inr (ground (arith, eq_refl k)),
          CoveredBy-shift k seen (keys added) (keys ms) (fresh_from-covers (k ∷ seen) ms),
        )
]

keys-append : (a b : List Message) → keys (a ++ b) ≡ keys a ++ keys b
keys-append [] b = refl
keys-append (m ∷ a) b = ap (λ r. message_row_key m ∷ r) (keys-append a b)

keys-merge :
    (a b : List Message) → keys (merge_messages a b) ≡ keys a ++ keys (fresh_from (keys a) b)
unfolding merge_messages
keys-merge a b = ap keys (merge_from-fresh (keys a) a b) ∙ keys-append a (fresh_from (keys a) b)

merge_messages-covers : (a b : List Message) → Covered (keys (merge_messages a b)) (keys b)
merge_messages-covers a b =
    subst (λ ks. Covered ks (keys b)) (sym (keys-merge a b))
      (CoveredBy-append (keys a) (keys (fresh_from (keys a) b)) (keys b)
        (fresh_from-covers (keys a) b))

-- Merging the same messages a second time changes nothing, whatever their order and however often
-- each of them comes.
pub merge_messages_idempotent :
    (a b : List Message) → merge_messages (merge_messages a b) b ≡ merge_messages a b
merge_messages_idempotent a b =
    merge_messages-Covered (merge_messages a b) b (merge_messages-covers a b)

-- None of the texts of the second list stands in the first.
abbrev Apart : List String → List String → Type 0
Apart seen ss = All (λ s. includes seen s ≡ false) ss

Apart-head : (x : String) (seen ss : List String) → Apart (x ∷ seen) ss → includes ss x ≡ false
Apart-head x seen [] h = refl
Apart-head x seen (s ∷ ss) (p, h) = ground (arith, Apart-head x seen ss h, eq_iff x s, eq_iff s x)

Apart-tail : (x : String) (seen ss : List String) → Apart (x ∷ seen) ss → Apart seen ss
Apart-tail x seen [] h = tt
Apart-tail x seen (s ∷ ss) (p, h) = (ground arith, Apart-tail x seen ss h)

includes-append_false :
    (ss us : List String) (s : String)
    → includes ss s ≡ false
    → includes us s ≡ false
    → includes (ss ++ us) s ≡ false
includes-append_false [] us s h k = k
includes-append_false (x ∷ ss) us s h k = ground (arith, includes-append_false ss us s)

Distinct-append :
    (ss us : List String) → Distinct ss → Distinct us → Apart ss us → Distinct (ss ++ us)
Distinct-append [] us h k d = k
Distinct-append (s ∷ ss) us (p, h) k d = (
  includes-append_false ss us s p (Apart-head s ss us d),
  Distinct-append ss us h k (Apart-tail s ss us d),
)

-- The added keys are new, and no two of them are the same.
fresh_from-new :
    (seen : List String) (ms : List Message)
    → Distinct (keys (fresh_from seen ms)) × Apart seen (keys (fresh_from seen ms))
unfolding fresh_from
fresh_from-new seen [] = (tt, tt)
fresh_from-new seen (m ∷ ms) = elim (Bool-cases (includes seen (message_row_key m))) [
  | inl e ↦ rw e (fresh_from-new seen ms)
  | inr e ↦
      let k = message_row_key m in
      let (d, h) = fresh_from-new (k ∷ seen) ms in
      let ks = keys (fresh_from (k ∷ seen) ms) in
      subst (λ f. Distinct (keys f) × Apart seen (keys f)) (sym (fresh_from-add seen m ms e))
        ((Apart-head k seen ks h, d), (e, Apart-tail k seen ks h))
]

-- A list without two messages of one key stays one: the table has no two rows of the same key.
pub merge_messages-Distinct :
    (a b : List Message) → Distinct (keys a) → Distinct (keys (merge_messages a b))
merge_messages-Distinct a b h =
    let (d, apart) = fresh_from-new (keys a) b in
    subst Distinct (sym (keys-merge a b))
      (Distinct-append (keys a) (keys (fresh_from (keys a) b)) h d apart)

-- The merged list begins with the messages that were there, in their order; it holds the key of each
-- incoming message.
pub merge_messages-extends :
    (a b : List Message)
    → ((new : List Message) × (merge_messages a b ≡ a ++ new))
      × Covered (keys (merge_messages a b)) (keys b)
unfolding merge_messages
merge_messages-extends a b =
    ((fresh_from (keys a) b, merge_from-fresh (keys a) a b), merge_messages-covers a b)
