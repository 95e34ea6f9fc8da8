-- ===== src/Pages/Messages/Socket.antt =====
-- The socket of the live tail (frontend/src/pages/MessagesPage.tsx): the effect that opens it. What
-- `Number` makes of a text is the argument `number`, and `url` is `api.liveTailURL` in its page.
pub mod Laws
use kafkaesque.Pages.Messages.{Messages}
use kafkaesque.Prelude.Texts.{is_blank, trim}
use kafkaesque.Prelude.{◌||◌, not, if◌then◌else◌, Option, String, ℕ, none, some}

module _ (number : String → ℕ) (url : String → String → Option ℕ → String) where
  unfoldable pub partition_of : Messages → Option ℕ
  partition_of s = if is_blank (trim s.partition) then none else some (number s.partition)

  -- The address of the socket that the effect opens, if it opens one.
  unfoldable pub live_socket : String → String → Messages → Option String
  live_socket cluster topic s =
      if not s.live_tail || is_blank cluster || is_blank topic
      then none
      else some (url cluster topic (partition_of s))
