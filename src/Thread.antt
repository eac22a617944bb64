-- ===== src/Thread.antt =====
-- src/arch/posix/lsp_thread.c: the creation of a thread.
use liblsp.Prelude.{ℕ, ◌==◌, if◌then◌else◌}
use liblsp.Types.{err, err_none}

-- `lsp_thread_create`, from the result of `pthread_create`. The stack size and the priority are not used.
unfoldable pub thread_create : (pthread_create : ℕ) → ℕ
thread_create pthread_create = if pthread_create == 0 then err_none else err
