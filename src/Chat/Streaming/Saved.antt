-- ===== src/Chat/Streaming/Saved.antt =====
-- What a streamed turn yields at its end, and what it leaves in the conversation store.
use fiddlesticks.Base.{◌-◌, ℕ, suc, string_eq}
use fiddlesticks.Exec.{Exec}
use fiddlesticks.Chat.Types.{ChatEvent}
use fiddlesticks.Chat.Store.{StoreLaws}
use fiddlesticks.Chat.Service.{Platform, ChatService}
use fiddlesticks.Chat.Streaming.Streamed.{Streamed}

module _ {St W : Type 0} (platform : Platform W) (chat : ChatService St W)
    (reader : ChatEvent → W → W) (laws : StoreLaws chat.store) where
  open laws use {transcript}

  -- The rounds that the guard of the loop leaves after `n`.
  abbrev left_after : ℕ → ℕ
  left_after n = suc (chat.policy.max_tool_round_trips - n)
