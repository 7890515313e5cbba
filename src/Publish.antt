-- ===== src/Publish.antt =====
-- app/review/publish.py, `ReviewPublishService`: `Routes` resolves the targets of a task, `Send`
-- sends to them one by one, `Task` is `publish_task`.
pub mod Routes
pub mod Send
pub mod Task
pub mod Bindings
pub mod Sent
pub mod Held
pub mod Outcome
pub mod Stuck
