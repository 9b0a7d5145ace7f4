-- ===== src/Cache/Laws.antt =====
-- What a read through rtl/cache/cache.sv returns.
use risc_v_cpu.Base.{ℕ, ◌≡◌, refl, ◌∙◌, Bool, true, false, ◌&&◌, ◌==◌, ==_iff}
use risc_v_cpu.Cache.{Cache, tag_of, set_of, cache_edge, cache_out}

==_self : (x : ℕ) → (x == x) ≡ true
==_self x = (==_iff x x).1 refl

-- The block that a cache holds for an address, if it is there.
abbrev pub cached : Cache → ℕ → Bool
cached c a = tag_of a == (c.blocks (set_of a)).tag && (c.blocks (set_of a)).valid

-- An edge in which the pipeline reads an address and writes nothing.
abbrev pub read_edge : ℕ → ℕ → Cache → Cache
read_edge a word c =
    cache_edge (record { we0 = false; we1 = false; we2 = false; we3 = false }) true a 0 word c

-- What the registered tag and set say of the block behind them: the next value of `hit`.
abbrev pub pending : Cache → Bool
pending c = c.a_tag == (c.blocks c.a_set).tag && (c.blocks c.a_set).valid

module _ (a word : ℕ) (c : Cache) where
  pub read_edge-hit : (read_edge a word c).hit ≡ pending c
  unfolding cache_edge
  read_edge-hit = refl

  -- Without a hit, the word goes to the registered set, under the registered tag.
  read_edge-block :
      c.hit ≡ false
      → (read_edge a word c).blocks c.a_set ≡ record { valid = true; tag = c.a_tag; word = word }
  unfolding cache_edge
  read_edge-block no_hit = rw (no_hit, ==_self) refl

-- At a block that carries the registered tag, the next edge hits.
pending-block :
    (c : Cache) (word : ℕ)
    → c.blocks c.a_set ≡ record { valid = true; tag = c.a_tag; word = word }
    → pending c ≡ true
pending-block c word e = rw (e, ==_self) refl

cache_out-block :
    (c : Cache) (tag word : ℕ)
    → c.hit ≡ true
    → c.blocks c.a_set ≡ record { valid = true; tag = tag; word = word }
    → cache_out c ≡ word
unfolding cache_out
cache_out-block c tag word hit e = rw (hit, e) refl

-- A read of an address that the cache does not hold, with no hit now and none coming for the address before
-- it: the first two edges give no hit, and the third gives a hit and the word of the memory.
pub read_edge-miss :
    (a word : ℕ) (c : Cache)
    → c.hit ≡ false
    → pending c ≡ false
    → cached (read_edge a word c) a ≡ false
    → ((read_edge a word c).hit ≡ false)
      × ((read_edge a word (read_edge a word c)).hit ≡ false)
      × ((read_edge a word (read_edge a word (read_edge a word c))).hit ≡ true)
      × (cache_out (read_edge a word (read_edge a word (read_edge a word c))) ≡ word)
unfolding cache_edge
read_edge-miss a word c no_hit no_pending absent =
    let c1 = read_edge a word c in
    let c2 = read_edge a word c1 in
    let h1 : c1.hit ≡ false = read_edge-hit a word c ∙ no_pending in
    let h2 : c2.hit ≡ false = read_edge-hit a word c1 ∙ absent in
    let h3 : (read_edge a word c2).hit ≡ true =
      read_edge-hit a word c2 ∙ pending-block c2 word (read_edge-block a word c1 h1) in
    (
      h1,
      h2,
      h3,
      cache_out-block (read_edge a word c2) (tag_of a) word h3 (read_edge-block a word c2 h2),
    )

-- Behind an edge without a hit, the next edge hits; and once a read hits it goes on to, with the same word.
pub read_edge-pending :
    (a word : ℕ) (c : Cache)
    → c.hit ≡ false
    → tag_of a ≡ c.a_tag
    → set_of a ≡ c.a_set
    → pending (read_edge a word c) ≡ true
unfolding cache_edge
read_edge-pending a word c no_hit tag set =
    rw (no_hit, set, tag, ==_self c.a_set, ==_self c.a_tag) refl

pub read_edge-again :
    (a word : ℕ) (c : Cache)
    → c.hit ≡ true
    → pending c ≡ true
    → set_of a ≡ c.a_set
    → ((read_edge a word c).hit ≡ true) × (cache_out (read_edge a word c) ≡ cache_out c)
unfolding cache_edge cache_out
read_edge-again a word c hit again set = (again, rw (again, set, hit) refl)

-- The first edge of a read without a hit puts the word under the tag and the set that are still
-- registered, those of the address before: the cache then holds that word for each address `b`
-- with that tag and set, whatever the memory has there.
read_edge-poisons :
    (a b word : ℕ) (c : Cache)
    → c.hit ≡ false
    → tag_of b ≡ c.a_tag
    → set_of b ≡ c.a_set
    → (cached (read_edge a word c) b ≡ true)
      × (((read_edge a word c).blocks (set_of b)).word ≡ word)
read_edge-poisons a b word c no_hit tag set =
    let e = read_edge-block a word c no_hit in (rw (set, e, tag, ==_self) refl, rw (set, e) refl)
