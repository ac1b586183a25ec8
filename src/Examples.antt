-- ===== src/Examples.antt =====
-- Concrete crates, on which the tests and the examples run.
pub mod Bits
pub mod Clear
pub mod Ends
mod HeaderExamples
mod WindowExamples
mod CryptoExamples
mod SenderExamples
mod ReceiverExamples
mod SessionExamples
mod NetworkExamples
mod SharedExamples
mod BuildExamples
mod MeetingExamples
