-- ===== src/Plat.antt =====
-- What the processor reports: `ps_tsc_locality` and `ps_coreid` of plat/os/linux/ps_os.h, and `ps_tsc` of
-- plat/arch/x86/ps_arch_x86_common.h. The set-up of threads is in the children.
pub mod Processor
pub mod Setup
pub mod Scheduling
use Prim.Native.Nat.{bit_or}
use ps.Base.{ℕ, ◌*◌, ◌/◌, ◌%◌, ◌^◌, ◌==◌, if◌then◌else◌}

-- The registers that `rdtsc` and `rdtscp` write
pub record Registers : Type 0 where
  pub a : ℕ
  pub d : ℕ
  pub c : ℕ

unfoldable pub ps_tsc : Registers → ℕ
ps_tsc r = bit_or (r.d * 2 ^ 32 % 2 ^ 64) r.a

-- What `ps_tsc_locality` returns and writes: the time, `*coreid` and `*numaid`, of 16 bits each
pub record Locality : Type 0 where
  pub tsc : ℕ
  pub coreid : ℕ
  pub numaid : ℕ

-- `c & 0xFFF` is what `c` has below `2 ^ 12`.
unfoldable pub ps_tsc_locality : Registers → Locality
ps_tsc_locality r = record {
  tsc = bit_or (r.d * 2 ^ 32 % 2 ^ 64) r.a;
  coreid = r.c % 2 ^ 12;
  numaid = r.c / 2 ^ 12 % 2 ^ 16;
}

-- With `PS_NUMCORES` cores
unfoldable pub ps_coreid : (numcores : ℕ) → Registers → ℕ
ps_coreid numcores r = if numcores == 1 then 0 else (ps_tsc_locality r).coreid
