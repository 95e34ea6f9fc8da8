-- ===== src/Pages/Messages/Keys.antt =====
-- `messageRowKey` tells messages apart.
use kafkaesque.Prelude.Decimal.{to_text}
use mathlib.Core.Path.{subst}
use kafkaesque.Api.Types.{Message}
use kafkaesque.Prelude.Decimal.Injective.{to_text_injective, NoDigit}
use kafkaesque.Pages.Messages.{message_row_key}
use kafkaesque.Prelude.{ap, refl, sym, ◌∙◌, ◌≡◌, String}
use Prim.Native.String.{◌++◌ as ◌<>◌}
use text.Mathlib.TextLemmas.{nil-append, cons-append, append_cancel_left}

dash-eq : (s : String) → "-" <> s ≡ String.◌∷◌ "-" s
dash-eq s = cons-append "-" "" s ∙ ap (String.◌∷◌ "-") (nil-append s)

dash-NoDigit : (s : String) → NoDigit ("-" <> s)
dash-NoDigit s = subst NoDigit (sym (dash-eq s)) refl

-- Two messages with one row key have one partition and one offset.
message_row_key_injective :
    (m n : Message)
    → message_row_key m ≡ message_row_key n
    → (m.partition ≡ n.partition) × (m.offset ≡ n.offset)
unfolding message_row_key
message_row_key_injective m n e =
    let (same, rest) =
      to_text_injective m.partition n.partition ("-" <> to_text m.offset) ("-" <> to_text n.offset)
        (dash-NoDigit _) (dash-NoDigit _) e in
    let offsets = append_cancel_left "-" (to_text m.offset) (to_text n.offset) rest in
    (same, (to_text_injective m.offset n.offset "" "" tt tt (ap (λ s. s <> "") offsets)).0)
