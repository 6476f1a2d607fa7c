-- ===== src/Proxy.antt =====
-- services/signalmesh-node/internal/proxy/handler.go: how one request is served. Left out: log lines,
-- the text of `err`, and the JSON of requests and answers, which is package code.
pub mod State
pub mod Failure
pub mod Attempt
pub mod Chat
pub mod Response
pub mod Entry
pub mod Rejections
pub mod Verdicts
pub mod Endings
pub mod Retries
pub mod Answers
pub mod Guarantees
pub mod Soundness
pub mod Turns
pub mod Runaways
