-- ===== src/Service/Contexts.antt =====
-- OverlapContext of src/OverlapFd.h, and the state that the contexts and the world outside make up.
use winsock_tut.Base.{ℕ, ◌%◌, ◌^◌, Option, none}
use winsock_tut.Heap.{Heap}

abbrev pub flag_associate : ℕ
flag_associate = 1

abbrev pub flag_cancel_io : ℕ
flag_cancel_io = 2

abbrev pub flag_lazy_delete : ℕ
flag_lazy_delete = 3

-- The callback is a number, or none where the std::function is empty.
pub record OverlapContext : Type 0 where
  pub internal : ℕ
  pub internal_high : ℕ
  pub h_event : ℕ
  pub buf : ℕ
  pub len : ℕ
  pub fd : ℕ
  pub flags : ℕ
  pub udata : ℕ
  pub cb : Option ℕ

-- `new OverlapContext()`
abbrev pub new_context : OverlapContext
new_context = record {
  internal = 0;
  internal_high = 0;
  h_event = 0;
  buf = 0;
  len = 0;
  fd = 0;
  flags = 0;
  udata = 0;
  cb = none;
}

unfoldable pub status_code : OverlapContext → ℕ
status_code ctx = ctx.internal % 2 ^ 32

unfoldable pub transferred_bytes : OverlapContext → ℕ
transferred_bytes ctx = ctx.internal_high % 2 ^ 32

unfoldable pub set_buffer : ℕ → ℕ → OverlapContext → OverlapContext
set_buffer buffer len ctx = record ctx { buf = buffer; len = len }

-- The heap and the world `W` outside.
pub record Store (W : Type 0) : Type 0 where
  pub heap : Heap OverlapContext
  pub world : W
