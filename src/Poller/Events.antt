-- ===== src/Poller/Events.antt =====
-- What the pollers of src/ call back.

-- The two callbacks of IPollEvent in src/PollEvent.h.
pub data Event : Type 0 where
  readable writable : Event
