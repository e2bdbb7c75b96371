-- ===== src/Word.antt =====
-- The operations on uint32_t that the devices share, over native numbers: every device file has its
-- own static copies of mask_for_size, read_part and merge_write, all of the same text.
mod Bit
mod Shift
mod Mask
mod Field
mod Glue
mod Ops
pub use Bit.*
pub use Shift.*
pub use Mask.*
pub use Field.*
pub use Glue.*
unfoldable pub use Ops.*
