-- ===== src/Layout/Bell/Laws.antt =====
-- What the notifications count as unread.
use kafkaesque.Pages.Audit.{AuditEntry}
use kafkaesque.Prelude.{
  ◌∙◌, not, refl, [], Bool-cases, ◌∷◌, any_of_mem, eqb, any, mem_of_any, ltb→lt, inr, inl,
  Option-cases, arith, Memᴰ, ltb, ◌<◌, ◌↔◌, is_some, keep, some, true, length, ◌≡◌, List, ℕ, Bool,
  Option, String,
}
use kafkaesque.Layout.Bell.{shown, BellState, mark_all_read, unread_count, badge, is_unread}

-- An entry of the list is later than `now`.
abbrev pub Later : (String → Option ℕ) → ℕ → AuditEntry → Type 0
Later time_of now e = (t : ℕ) × (time_of e.created_at ≡ some t) × (now < t)

Later-is_unread :
    (time_of : String → Option ℕ) (now : ℕ) (s : BellState) (e : AuditEntry)
    → (is_unread time_of (mark_all_read now s).0 e ≡ true) ↔ Later time_of now e
unfolding is_unread mark_all_read
Later-is_unread time_of now s e = elim (Option-cases (time_of e.created_at)) [
  | inl h ↦ (λ u. absurd (ground arith), λ (t, k, l). absurd (cc))
  | inr (t, h) ↦ (
    λ u. (t, h, ltb→lt now t (ground arith)),
    λ (r, k, l). let test : ltb now r ≡ true = ground arith in ground (arith, k),
  )
]

counted {ℓ} :
    {A : Type ℓ} (f : A → Bool) (xs : List A) → not (eqb (length (keep f xs)) 0) ≡ any f xs
counted f [] = refl
counted f (x ∷ xs) = elim (Bool-cases (f x)) [
  | inl e ↦ ground (arith, e)
  | inr e ↦ ground (arith, e, counted f xs)
]

badge-some :
    (time_of : String → Option ℕ) (items : List AuditEntry) (s : BellState)
    → is_some (badge time_of items s) ≡ any (is_unread time_of s) (shown items)
unfolding badge unread_count
badge-some time_of items s =
    let n = unread_count time_of items s in
    let same : is_some (badge time_of items s) ≡ not (eqb n 0) = elim (Bool-cases (eqb n 0)) [
      | inl e ↦ ground (arith, e)
      | inr e ↦ ground (arith, e)
    ] in
    same ∙ counted (is_unread time_of s) (shown items)

-- After all notifications are marked as read at some time, the bell has a number exactly when one of the
-- 20 entries shown is later than that time.
pub badge-mark_all_read :
    (time_of : String → Option ℕ) (now : ℕ) (s : BellState) (items : List AuditEntry)
    → (is_some (badge time_of items (mark_all_read now s).0) ≡ true)
      ↔ ((e : AuditEntry) × Memᴰ e (shown items) × Later time_of now e)
badge-mark_all_read time_of now s items =
    let unread = is_unread time_of (mark_all_read now s).0 in
    rw (badge-some time_of items (mark_all_read now s).0) (
      λ h.
          let (e, m, u) = mem_of_any unread (shown items) h in
          (e, m, (Later-is_unread time_of now s e).0 u),
      λ (e, m, l). any_of_mem unread (shown items) m ((Later-is_unread time_of now s e).1 l),
    )
