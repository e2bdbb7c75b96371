-- ===== src/Disk/Guest.antt =====
-- What a guest does to move sectors: the register accesses of a driver, in order.
use nano1g_unicorn_c.Base.{ℕ, zero, suc, ◌+◌, ◌*◌, Array, Option, List, [], ◌∷◌, ◌++◌}
use nano1g_unicorn_c.State.{State}
use nano1g_unicorn_c.Disk.Pio.{image_word}
use nano1g_unicorn_c.Disk.Registers.{disk_read, disk_write, disk_tick}

-- k half-word reads of the data register.
unfoldable pub read_words : ℕ → State → List ℕ × State
read_words zero s = ([], s)
read_words (suc k) s =
    let (w, t) = disk_read s 0x1e0 2 in let (ws, u) = read_words k t in (w ∷ ws, u)

-- n sectors, each followed by a tick of the device.
unfoldable pub read_sectors : ℕ → State → List ℕ × State
read_sectors zero s = ([], s)
read_sectors (suc n) s =
    let (ws, t) = read_words 256 s in
    let (rest, u) = read_sectors n (disk_tick t) in (ws ++ rest, u)

-- The words of the image from a byte offset on.
unfoldable pub image_words : Option (Array ℕ) → ℕ → ℕ → ℕ → List ℕ
image_words img size off zero = []
image_words img size off (suc k) = image_word img size off ∷ image_words img size (off + 2) k

-- The words of consecutive sectors.
unfoldable pub image_sectors : Option (Array ℕ) → ℕ → ℕ → ℕ → List ℕ
image_sectors img size lba zero = []
image_sectors img size lba (suc n) =
    image_words img size (lba * 512) 256 ++ image_sectors img size (lba + 1) n

-- k half-word writes of the data register, and n sectors of them, each followed by a tick.
unfoldable pub write_words : ℕ → State → Array ℕ → State
write_words zero s w = s
write_words (suc k) s w = write_words k (disk_write s 0x1e0 2 (w 0)) (λ i. w (suc i))

unfoldable pub write_sectors : ℕ → State → Array ℕ → State
write_sectors zero s w = s
write_sectors (suc n) s w = write_sectors n (disk_tick (write_words 256 s w)) (λ i. w (256 + i))
