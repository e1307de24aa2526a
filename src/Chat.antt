-- ===== src/Chat.antt =====
-- app/utils/chat, app/utils/chat-proxy.ts, app/utils/rag-token.ts and the read loop of
-- app/components/ChatWidget/useChat.ts: the chat with the assistant.
pub mod Sse
pub mod Stream
pub mod Session
pub mod Token
