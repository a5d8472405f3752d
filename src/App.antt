-- ===== src/App.antt =====
-- internal/app/app.go: the one-shot fetch loop over an InputsQueue.
pub mod Loop
pub mod Accounting
