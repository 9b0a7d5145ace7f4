-- ===== src/Cache.antt =====
-- rtl/cache/cache.sv: eight blocks of one word, with a registered tag, set and hit.
pub mod Laws
use risc_v_cpu.Base.{ℕ, ◌+◌, ◌*◌, ◌^◌, Bool, true, ◌&&◌, ◌||◌, ◌==◌, if◌then◌else◌, slice}
use risc_v_cpu.Memory.{Enables}

-- A block of 45 bits: the valid bit, the tag and the data.
pub record Block : Type 0 where
  pub valid : Bool
  pub tag : ℕ
  pub word : ℕ

-- `cache_array`, and the registers `hit`, `A_tag` and `A_set`.
pub record Cache : Type 0 where
  pub blocks : ℕ → Block
  pub hit : Bool
  pub a_tag : ℕ
  pub a_set : ℕ

-- The fields of the 17-bit address.
abbrev pub tag_of : ℕ → ℕ
tag_of a = slice a 5 12

abbrev pub set_of : ℕ → ℕ
set_of a = slice a 2 3

-- The block that a write leaves: the enabled bytes of `WD` over those that were there.
abbrev merged : Enables → ℕ → ℕ → ℕ
merged e wd old =
    (if e.we3 then slice wd 24 8 else slice old 24 8) * 2 ^ 24
    + (if e.we2 then slice wd 16 8 else slice old 16 8) * 2 ^ 16
    + (if e.we1 then slice wd 8 8 else slice old 8 8) * 2 ^ 8
    + (if e.we0 then slice wd 0 8 else slice old 0 8)

abbrev any_write : Enables → Bool
any_write e = e.we3 || e.we2 || e.we1 || e.we0

abbrev put : ℕ → Bool → Block → (ℕ → Block) → ℕ → Block
put i enable b blocks j = if enable && i == j then b else blocks j

-- What the clock edge writes at the registered set.
abbrev filled : Cache → Enables → ℕ → ℕ → Block
filled c e wd found_data =
    if c.hit
    then record { valid = true; tag = c.a_tag; word = merged e wd (c.blocks c.a_set).word }
    else record { valid = true; tag = c.a_tag; word = found_data }

unfoldable pub cache_edge : Enables → Bool → ℕ → ℕ → ℕ → Cache → Cache
cache_edge e mem_read a wd found_data c = record {
  blocks =
      put c.a_set (if c.hit then any_write e else mem_read) (filled c e wd found_data) c.blocks;
  hit = c.a_tag == (c.blocks c.a_set).tag && (c.blocks c.a_set).valid;
  a_tag = tag_of a;
  a_set = set_of a;
}

-- `RD`.
unfoldable pub cache_out : Cache → ℕ
cache_out c = if c.hit then (c.blocks c.a_set).word else 0
