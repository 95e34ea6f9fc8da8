-- ===== src/Pages/Acls/Laws.antt =====
-- What the page of ACLs creates.
use kafkaesque.Auth.Guards.Laws.{guard-cases}
use kafkaesque.Auth.Guards.{can}
use kafkaesque.Api.Types.{User}
use kafkaesque.Prelude.Texts.{trim, is_blank}
use kafkaesque.Ui.Table.{clickable}
use kafkaesque.Api.Client.{create_acl}
use kafkaesque.Ui.{sent, mutate, Effect}
use kafkaesque.Pages.Acls.{
  submit_create, is_broad_permission, confirm_broad, press_create, create_failed, created,
  AclsState, close_broad, set_form,
}
use kafkaesque.Prelude.{
  Option, ◌||◌, refl, inr, not, ◌&&◌, inl, Bool-cases, arith, ◌∷◌, ◌⊎◌, [], false, true, ◌≡◌, List,
  Bool, String,
}
use kafkaesque.Api.Types.{AclInfo}

-- What the user and the server do to the page.
pub data Event : Type 0 where
  edited : AclInfo → Event
  submitted confirmed : Bool → Event
  dismissed : Event
  create_answered : Event
  failed : String → Event

-- The events about the form to create an ACL; the others leave it and its warning alone.
unfoldable pub on_event : Option User → String → Event → AclsState → AclsState × List Effect
on_event me cluster (edited a) s = set_form a s
on_event me cluster (submitted pending) s = press_create me cluster pending s
on_event me cluster (confirmed pending) s = confirm_broad me cluster pending s
on_event me cluster dismissed s = close_broad s
on_event me cluster create_answered s = created cluster s
on_event me cluster (failed message) s = create_failed message s

-- An event sends nothing, or creates the ACL of the form, for a user who may manage ACLs; one with a
-- broad permission only while its warning is shown.
pub creates-broad :
    (me : Option User) (cluster : String) (e : Event) (s : AclsState)
    → let requests = sent (on_event me cluster e s).1 in
      (requests ≡ [])
      ⊎ ((requests ≡ create_acl cluster s.form ∷ [])
          × (can me "acl.manage" ≡ true)
          × ((not (is_broad_permission s.form) || s.show_broad_warning) ≡ true))
unfolding on_event set_form press_create submit_create confirm_broad close_broad created
    create_failed
creates-broad me cluster (submitted pending) s = elim (guard-cases me "acl.manage") [
  | inr (no_right, g) ↦ inl (ground arith)
  | inl (right, g) ↦ elim (Bool-cases (clickable (is_blank (trim s.form.principal)) pending)) [
    | inl c ↦ elim (Bool-cases (is_broad_permission s.form && not s.show_broad_warning)) [
      | inl b ↦ inl (ground arith)
      | inr b ↦ inr (ground arith, right, ground arith)
    ]
    | inr c ↦ inl (ground arith)
  ]
]
creates-broad me cluster (confirmed pending) s = elim (guard-cases me "acl.manage") [
  | inr (no_right, g) ↦ inl (ground arith)
  | inl (right, g) ↦ elim (Bool-cases (s.show_broad_warning && clickable false pending)) [
    | inl c ↦ inr (ground arith, right, ground arith)
    | inr c ↦ inl (ground arith)
  ]
]
creates-broad me cluster (edited a) s = inl refl
creates-broad me cluster dismissed s = inl refl
creates-broad me cluster create_answered s = inl refl
creates-broad me cluster (failed message) s = inl refl

-- The way to an ACL with a broad permission: the first click on the button of the form sends nothing
-- and shows the warning, to dismiss it takes the warning away, and to confirm it creates the ACL of
-- the form and takes the warning away.
broad-two_steps :
    (me : Option User) (cluster : String) (s : AclsState)
    → can me "acl.manage" ≡ true
    → is_broad_permission s.form ≡ true
    → s.show_broad_warning ≡ false
    → is_blank (trim s.form.principal) ≡ false
    → let (asked, first) = press_create me cluster false s in
      (first ≡ [])
      × (asked ≡ record s { show_broad_warning = true })
      × (close_broad asked ≡ (s, []))
      × (confirm_broad me cluster false asked ≡ (s, mutate (create_acl cluster s.form) ∷ []))
unfolding press_create submit_create confirm_broad close_broad clickable
broad-two_steps me cluster s right broad hidden named = elim (guard-cases me "acl.manage") [
  | inl (r, g) ↦ (ground arith, ground arith, ground arith, ground arith)
  | inr (r, g) ↦ absurd (cc)
]
