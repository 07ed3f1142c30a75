-- ===== src/Put/Back.antt =====
-- Cutting lines, deleting them and putting them back where they were.
use open_vi.State.{Line}
