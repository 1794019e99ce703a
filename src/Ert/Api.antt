-- ===== src/Ert/Api.antt =====
-- The functions that `ERT_CREATE` (ps_ertrie.h) generates for a trie.
use ps.Base.{ℕ, Option}
use ps.Ert.{TrieState, ErtParams, ExpandRet, ert_alloc, ert_expand, ert_lookup, ert_maxid}

-- `r`, `e` and `a` are the addresses of local variables.
module _ {E : Type 0} (T : ErtParams E) where
  -- `<name>_alloc`
  abbrev pub alloc : (e accum memctxt : ℕ) → TrieState E → Option (ℕ × TrieState E)
  alloc e accum memctxt st = ert_alloc T e accum memctxt st

  -- `<name>_lkup`, `<name>_lkupa`, `<name>_lkupan` and `<name>_lkupani`
  abbrev pub lkup : (r a v id : ℕ) → (ℕ → ℕ) → Option ℕ
  lkup r a v id m = ert_lookup T r v id 0 T.depth a m

  abbrev pub lkupa : (r v id accum : ℕ) → (ℕ → ℕ) → Option ℕ
  lkupa r v id accum m = ert_lookup T r v id 0 T.depth accum m

  abbrev pub lkupan : (r v id dlimit accum : ℕ) → (ℕ → ℕ) → Option ℕ
  lkupan r v id dlimit accum m = ert_lookup T r v id 0 dlimit accum m

  abbrev pub lkupani : (r v id dstart dlimit accum : ℕ) → (ℕ → ℕ) → Option ℕ
  lkupani r v id dstart dlimit accum m = ert_lookup T r v id dstart dlimit accum m

  -- `<name>_expandni`, `<name>_expandn` and `<name>_expand`
  abbrev pub expandni :
      (r v id dstart dlimit accum memctxt data' : ℕ)
      → TrieState E
      → Option (ExpandRet × TrieState E)
  expandni r v id dstart dlimit accum memctxt data' st =
      ert_expand T r v id dstart dlimit accum memctxt data' st

  abbrev pub expandn :
      (r v id dlimit accum memctxt data' : ℕ) → TrieState E → Option (ExpandRet × TrieState E)
  expandn r v id dlimit accum memctxt data' st = ert_expand T r v id 0 dlimit accum memctxt data' st

  abbrev pub expand :
      (r v id accum memctxt data' : ℕ) → TrieState E → Option (ExpandRet × TrieState E)
  expand r v id accum memctxt data' st = ert_expand T r v id 0 T.depth accum memctxt data' st

  -- `<name>_maxid` and `<name>_maxdepth`
  abbrev pub maxid : ℕ
  maxid = ert_maxid T

  abbrev pub maxdepth : ℕ
  maxdepth = T.depth
