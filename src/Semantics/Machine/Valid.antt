-- ===== src/Semantics/Machine/Valid.antt =====
-- The well-formed states of `RV64GSemantics`, and the writes that keep them.
use lizard.Prelude.{suc-eqb_zero}
use lizard.Prelude.{ℕ, zero, suc, ◌^◌, ◌<◌, ◌≡◌, ◌∙◌, arith, ◌==◌, Bool, true, false, if◌then◌else◌}
use lizard.Prelude.{List, [], ◌∷◌, ◌++◌, All, get_or, set, length, length-set, get_or-set_ne}
use lizard.Prelude.{Option, none, some}
use lizard.Prelude.Int.{pos}
use lizard.Pymtl.{Pymtl}
use lizard.Semantics.Machine.{Machine, set_reg, get_reg, set_csr, get_csr}

abbrev pub Fits : ℕ → Type 0
Fits a = a < 2 ^ 64

-- `AREG_COUNT` registers of `XLEN` bits, of which the first holds 0; the rest of the state is `XLEN`
-- bits wide too.
pub record IsValid {Mem : Type 0} (s : Machine Mem) : Type 0 where
  pub pc-Fits : Fits s.pc
  pub length-regs : length s.regs ≡ 32
  pub regs-Fits : (i : ℕ) → Fits (get_or s.regs i 0)
  pub x0 : get_or s.regs 0 0 ≡ 0
  pub csr-Fits : (k : ℕ) → Fits (s.csr k)
  pub mngr2proc-Fits : All Fits s.mngr2proc
  pub proc2mngr-Fits : All Fits s.proc2mngr

get_or-set-Fits :
    (xs : List ℕ) (i j v : ℕ)
    → Fits v
    → ((k : ℕ) → Fits (get_or xs k 0))
    → Fits (get_or (set xs i v) j 0)
get_or-set-Fits [] i j v hv h = h j
get_or-set-Fits (x ∷ xs) zero zero v hv h = hv
get_or-set-Fits (x ∷ xs) zero (suc j) v hv h = h (suc j)
get_or-set-Fits (x ∷ xs) (suc i) zero v hv h = h 0
get_or-set-Fits (x ∷ xs) (suc i) (suc j) v hv h = get_or-set-Fits xs i j v hv (λ k. h (suc k))

All-append : (xs : List ℕ) (v : ℕ) → Fits v → All Fits xs → All Fits (xs ++ v ∷ [])
All-append [] v hv h = (hv, tt)
All-append (x ∷ xs) v hv (hx, h) = (hx, All-append xs v hv h)

module _ ⦃p : Pymtl⦄ where
  pub trunc-Fits : (v : ℕ) → Fits (p.trunc 64 (pos v))
  trunc-Fits v = omega (arith, p.trunc_law 64 (pos v))

if-IsValid :
    {Mem : Type 0} (b : Bool) (s t : Machine Mem)
    → IsValid s
    → IsValid t
    → IsValid (if b then s else t)
if-IsValid true s t hs ht = hs
if-IsValid false s t hs ht = ht

-- A value that is read leaves a well-formed state.
abbrev pub GetIsValid : {Mem : Type 0} → Option (ℕ × Machine Mem) → Type 0
GetIsValid none = Unit
GetIsValid (some (v, s)) = Fits v × IsValid s

module _ ⦃p : Pymtl⦄ {Mem : Type 0} where
  pub set_reg-IsValid : (s : Machine Mem) (idx v : ℕ) → IsValid s → IsValid (set_reg s idx v)
  unfolding set_reg
  set_reg-IsValid s zero v h = h
  set_reg-IsValid s (suc idx) v h = rw (suc-eqb_zero idx) record {
    pc-Fits = h.pc-Fits;
    length-regs = length-set s.regs (suc idx) (p.trunc 64 (pos v)) ∙ h.length-regs;
    regs-Fits =
        λ i. get_or-set-Fits s.regs (suc idx) i (p.trunc 64 (pos v)) (trunc-Fits v) h.regs-Fits;
    x0 = get_or-set_ne s.regs (suc idx) 0 (p.trunc 64 (pos v)) 0 (λ e. omega arith) ∙ h.x0;
    csr-Fits = h.csr-Fits;
    mngr2proc-Fits = h.mngr2proc-Fits;
    proc2mngr-Fits = h.proc2mngr-Fits;
  }

  pub set_csr-IsValid : (s : Machine Mem) (idx v : ℕ) → IsValid s → IsValid (set_csr s idx v)
  unfolding set_csr
  set_csr-IsValid s idx v h =
      if-IsValid (idx == 0x7C0) _ _
        record {
          pc-Fits = h.pc-Fits;
          length-regs = h.length-regs;
          regs-Fits = h.regs-Fits;
          x0 = h.x0;
          csr-Fits = h.csr-Fits;
          mngr2proc-Fits = h.mngr2proc-Fits;
          proc2mngr-Fits =
              All-append s.proc2mngr (p.trunc 64 (pos v)) (trunc-Fits v) h.proc2mngr-Fits;
        }
        record {
          pc-Fits = h.pc-Fits;
          length-regs = h.length-regs;
          regs-Fits = h.regs-Fits;
          x0 = h.x0;
          csr-Fits = λ k. choose (k == idx) k;
          mngr2proc-Fits = h.mngr2proc-Fits;
          proc2mngr-Fits = h.proc2mngr-Fits;
        }
    where
      choose : (b : Bool) (k : ℕ) → Fits (if b then p.trunc 64 (pos v) else s.csr k)
      choose true k = trunc-Fits v
      choose false k = h.csr-Fits k

  pub get_reg-Fits : (s : Machine Mem) (idx : ℕ) → IsValid s → Fits (get_reg s idx)
  unfolding get_reg
  get_reg-Fits s zero h = omega arith
  get_reg-Fits s (suc idx) h = rw (suc-eqb_zero idx) (h.regs-Fits (suc idx))

  popped :
      (queue : List ℕ) (s : Machine Mem)
      → All Fits queue
      → IsValid s
      → GetIsValid (elim queue as (λ q. Option (ℕ × Machine Mem)) [
        | [] ↦ none
        | v ∷ vs ↦ some (v, record s { mngr2proc = vs })
      ])
  popped [] s hq h = tt
  popped (v ∷ vs) s (hv, hvs) h = (
    hv,
    record {
      pc-Fits = h.pc-Fits;
      length-regs = h.length-regs;
      regs-Fits = h.regs-Fits;
      x0 = h.x0;
      csr-Fits = h.csr-Fits;
      mngr2proc-Fits = hvs;
      proc2mngr-Fits = h.proc2mngr-Fits;
    },
  )

  if-GetIsValid :
      (b : Bool) (o o' : Option (ℕ × Machine Mem))
      → GetIsValid o
      → GetIsValid o'
      → GetIsValid (if b then o else o')
  if-GetIsValid true o o' h h' = h
  if-GetIsValid false o o' h h' = h'

  pub get_csr-IsValid : (s : Machine Mem) (idx : ℕ) → IsValid s → GetIsValid (get_csr s idx)
  unfolding get_csr
  get_csr-IsValid s idx h =
      if-GetIsValid (idx == 0xFC0) _ _ (popped s.mngr2proc s h.mngr2proc-Fits h) (h.csr-Fits idx, h)
