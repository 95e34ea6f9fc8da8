-- ===== src/Palette/Recent.antt =====
-- The recent searches.
use kafkaesque.Prelude.Texts.{trim, is_blank}
use kafkaesque.Palette.{save_recent}
use kafkaesque.Prelude.{
  if◌then◌else◌, some, get_elem?, length-take, false, inr, All-keep, arith, zero, ◌≡◌, inl, not,
  suc, ◌==◌, ◌≤◌, All, Bool, Bool-cases, [], keep, length, take, ◌∷◌, List, String, ℕ,
}

abbrev pub IsNew : String → List String → Type 0
IsNew q rs = All (λ r. (r == q) ≡ false) rs

abbrev pub NoRepeat : List String → Type 0
NoRepeat [] = Unit
NoRepeat (r ∷ rs) = IsNew r rs × NoRepeat rs

keep-IsNew : (q : String) (rs : List String) → IsNew q (keep (λ r. not (r == q)) rs)
keep-IsNew q [] = tt
keep-IsNew q (r ∷ rs) = ground (arith, keep-IsNew q rs)

NoRepeat-keep : (f : String → Bool) (rs : List String) → NoRepeat rs → NoRepeat (keep f rs)
NoRepeat-keep f [] h = tt
NoRepeat-keep f (r ∷ rs) (p, h) = elim (Bool-cases (f r)) [
  | inl e ↦ rw e (All-keep _ f rs p, NoRepeat-keep f rs h)
  | inr e ↦ rw e (NoRepeat-keep f rs h)
]

All-take : (P : String → Type 0) (n : ℕ) (rs : List String) → All P rs → All P (take n rs)
All-take P zero rs h = tt
All-take P (suc n) [] h = tt
All-take P (suc n) (r ∷ rs) (p, h) = (p, All-take P n rs h)

NoRepeat-take : (n : ℕ) (rs : List String) → NoRepeat rs → NoRepeat (take n rs)
NoRepeat-take zero rs h = tt
NoRepeat-take (suc n) [] h = tt
NoRepeat-take (suc n) (r ∷ rs) (p, h) = (All-take _ n rs p, NoRepeat-take n rs h)

pub record IsRecent (rs : List String) : Type 0 where
  pub bounded : length rs ≤ 5
  pub no_repeat : NoRepeat rs

save_recent-IsRecent : (q : String) (rs : List String) → IsRecent rs → IsRecent (save_recent q rs)
unfolding save_recent
save_recent-IsRecent q rs h = elim (Bool-cases (is_blank (trim q))) [
  | inl e ↦ rw e h
  | inr e ↦
      let rest = keep (λ r. not (r == q)) rs in
      rw e (record {
        bounded = omega (arith, length-take 4 rest);
        no_repeat = NoRepeat-take 5 (q ∷ rest) (keep-IsNew q rs, NoRepeat-keep _ rs h.no_repeat);
      })
]

unfoldable pub save_all : List String → List String → List String
save_all [] rs = rs
save_all (q ∷ qs) rs = save_all qs (save_recent q rs)

save_all-keeps : (qs rs : List String) → IsRecent rs → IsRecent (save_all qs rs)
unfolding save_all
save_all-keeps [] rs h = h
save_all-keeps (q ∷ qs) rs h = save_all-keeps qs _ (save_recent-IsRecent q rs h)

-- After any searches at most five are remembered, none of them twice; a further search is the first of
-- them, unless it is white space, which changes none.
save_all-IsRecent :
    (qs : List String) (q : String)
    → IsRecent (save_all qs [])
      × (get_elem? (save_recent q (save_all qs [])) 0
          ≡ (if is_blank (trim q) then get_elem? (save_all qs []) 0 else some q))
unfolding save_recent
save_all-IsRecent qs q =
    (save_all-keeps qs [] (record { bounded = omega arith; no_repeat = tt }), ground arith)
