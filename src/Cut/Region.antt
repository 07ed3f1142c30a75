-- ===== src/Cut/Region.antt =====
-- What `cut` makes of the default buffer and of the named ones.
use open_vi.State.{Line}
