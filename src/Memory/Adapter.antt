-- ===== src/Memory/Adapter.antt =====
-- fmemory/src/adapter.rs: a memory backend as the conversation store of a chat service.
use fiddlesticks.Exec.{catch_into}
use fiddlesticks.Chat.Error.{ChatError, ChatErrorKind, ChatErrorPhase, new, with_phase}
use fiddlesticks.Chat.Store.{ConversationStore}
use fiddlesticks.Memory.Error.{MemoryError}
use fiddlesticks.Memory.Backend.{MemoryBackend}

unfoldable pub memory_error_to_chat_error : MemoryError → ChatError
unfolding new with_phase
memory_error_to_chat_error e = with_phase ChatErrorPhase.storage (new ChatErrorKind.store e.message)

-- `MemoryConversationStore`
abbrev pub memory_conversation_store : {B : Type 0} → MemoryBackend B → ConversationStore B
memory_conversation_store backend = record {
  load_messages = λ id. catch_into memory_error_to_chat_error (backend.load_transcript_messages id);
  append_messages =
      λ id ms. catch_into memory_error_to_chat_error (backend.append_transcript_messages id ms);
}
