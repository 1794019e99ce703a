-- ===== src/Header.antt =====
-- The header in front of every object (`struct ps_mheader` of ps_global.h).
use ps.Base.{ℕ, ◌+◌, ◌-◌, ◌≡◌, ◌≢◌, refl, Bool, ◌==◌, not, update, arith, ◌∙◌}

-- The fields of every `struct ps_mheader`, by address; 0 is `NULL`
pub record Headers : Type 0 where
  pub tsc_free : ℕ → ℕ
  pub slab : ℕ → ℕ
  pub next : ℕ → ℕ

-- `sizeof(struct ps_mheader)`, packed
abbrev pub sizeof_mheader : ℕ
sizeof_mheader = 24

-- `__ps_mhead_get`
unfoldable pub ps_mhead_get : ℕ → ℕ
ps_mhead_get mem = mem - sizeof_mheader

-- `__ps_mhead_mem`
unfoldable pub ps_mhead_mem : ℕ → ℕ
ps_mhead_mem h = h + sizeof_mheader

pub get-mem : (h : ℕ) → ps_mhead_get (ps_mhead_mem h) ≡ h
unfolding ps_mhead_get ps_mhead_mem
get-mem h = omega arith

abbrev pub set_next : Headers → ℕ → ℕ → Headers
set_next hs h v = record hs { next = update hs.next h v }

-- `__ps_mhead_isfree`
unfoldable pub ps_mhead_isfree : Headers → ℕ → Bool
ps_mhead_isfree hs h = not (hs.tsc_free h == 0)

-- `__ps_mhead_reset`
unfoldable pub ps_mhead_reset : Headers → ℕ → Headers
ps_mhead_reset hs h = record hs { tsc_free = update hs.tsc_free h 0; next = update hs.next h 0 }

-- `__ps_mhead_setfree`
unfoldable pub ps_mhead_setfree : Headers → ℕ → ℕ → Headers
ps_mhead_setfree hs h token = record hs { tsc_free = update hs.tsc_free h token }

-- `__ps_mhead_init`
unfoldable pub ps_mhead_init : Headers → ℕ → ℕ → Headers
ps_mhead_init hs h s = ps_mhead_setfree (record hs { slab = update hs.slab h s }) h 1

-- `hs` and `gs` differ at most in the mark and the link of `x`.
pub record OnlyAt (x : ℕ) (hs gs : Headers) : Type 0 where
  pub same_slab : gs.slab ≡ hs.slab
  pub same_next : (c : ℕ) → c ≢ x → gs.next c ≡ hs.next c
  pub same_tsc : (c : ℕ) → c ≢ x → gs.tsc_free c ≡ hs.tsc_free c

pub OnlyAt-trans : {x : ℕ} {hs gs fs : Headers} → OnlyAt x hs gs → OnlyAt x gs fs → OnlyAt x hs fs
OnlyAt-trans a b = record {
  same_slab = b.same_slab ∙ a.same_slab;
  same_next = λ c ne. b.same_next c ne ∙ a.same_next c ne;
  same_tsc = λ c ne. b.same_tsc c ne ∙ a.same_tsc c ne;
}

pub reset-OnlyAt : (hs : Headers) (x : ℕ) → OnlyAt x hs (ps_mhead_reset hs x)
unfolding ps_mhead_reset
reset-OnlyAt hs x = record {
  same_slab = refl;
  same_next = λ c ne. ground arith;
  same_tsc = λ c ne. ground arith;
}

pub set_next-OnlyAt : (hs : Headers) (x v : ℕ) → OnlyAt x hs (set_next hs x v)
set_next-OnlyAt hs x v = record {
  same_slab = refl;
  same_next = λ c ne. ground arith;
  same_tsc = λ c ne. refl;
}

pub setfree-OnlyAt : (hs : Headers) (x t : ℕ) → OnlyAt x hs (ps_mhead_setfree hs x t)
unfolding ps_mhead_setfree
setfree-OnlyAt hs x t = record {
  same_slab = refl;
  same_next = λ c ne. refl;
  same_tsc = λ c ne. ground arith;
}

pub reset_unmarked : (hs : Headers) (x : ℕ) → (ps_mhead_reset hs x).tsc_free x ≡ 0
unfolding ps_mhead_reset
reset_unmarked hs x = ground arith
