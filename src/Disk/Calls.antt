-- ===== src/Disk/Calls.antt =====
-- What a call leaves behind, whatever its fault.
use mathlib.Core.Path.{subst}
use kora_engine.Prelude.{
  ℕ, ◌≡◌, ◌⊎◌, inl, inr, refl, sym, Bool, true, false, Option, none, some, if◌then◌else◌,
}
use kora_engine.Disk.{
  Fault, fails, torn, Disk, World, call, called, change, changed, next_fault, later_faults,
}

disk-called : (f : Option Fault) (w : World) → (called f w).1.disk ≡ w.disk
unfolding called
disk-called none w = refl
disk-called (some f) w = refl

pub disk-call : (w : World) → (call w).1.disk ≡ w.disk
unfolding call
disk-call w = disk-called (next_fault w.faults) (record w { faults = later_faults w.faults })

-- The disks that a change can leave, with its result.
abbrev pub Left : Disk → (ℕ → Disk) → World → Bool × World → Type 0
Left d part w r =
    ((r.0 ≡ true) × (r.1.disk ≡ d))
    ⊎ ((r.0 ≡ false) × ((r.1.disk ≡ w.disk) ⊎ ((n : ℕ) × (r.1.disk ≡ part n))))

changed_lem :
    (f : Option Fault) (d : Disk) (part : ℕ → Disk) (w : World) → Left d part w (changed f d part w)
unfolding changed
changed_lem none d part w = inl (refl, refl)
changed_lem (some fails) d part w = inr (refl, inl refl)
changed_lem (some (torn n)) d part w = inr (refl, inr (n, refl))

pub change_lem : (d : Disk) (part : ℕ → Disk) (w : World) → Left d part w (change d part w)
unfolding change
change_lem d part w =
    changed_lem (next_fault w.faults) d part (record w { faults = later_faults w.faults })

-- A property of disks that the whole change, any part of it, and no change keep.
pub change_keeps {ℓ} :
    (P : Disk → Type ℓ) (d : Disk) (part : ℕ → Disk) (w : World)
    → P w.disk
    → P d
    → ((n : ℕ) → P (part n))
    → P (change d part w).1.disk
change_keeps P d part w h k g = elim (change_lem d part w) [
  | inl (t, e) ↦ subst P (sym e) k
  | inr (t, inl e) ↦ subst P (sym e) h
  | inr (t, inr (n, e)) ↦ subst P (sym e) (g n)
]

pub change_done :
    (d : Disk) (part : ℕ → Disk) (w : World)
    → (change d part w).0 ≡ true
    → (change d part w).1.disk ≡ d
change_done d part w h = elim (change_lem d part w) [
  | inl (t, e) ↦ e
  | inr (t, l) ↦ absurd (cc (t, h))
]

pub change_failed {ℓ} :
    (P : Disk → Type ℓ) (d : Disk) (part : ℕ → Disk) (w : World)
    → P w.disk
    → ((n : ℕ) → P (part n))
    → (change d part w).0 ≡ false
    → P (change d part w).1.disk
change_failed P d part w h g f = elim (change_lem d part w) [
  | inl (t, e) ↦ absurd (cc (t, f))
  | inr (t, inl e) ↦ subst P (sym e) h
  | inr (t, inr (n, e)) ↦ subst P (sym e) (g n)
]

-- A test whose branches both have a property, each where it is taken.
pub if_keeps {ℓ ℓ'} :
    {A : Type ℓ} (P : A → Type ℓ') (b : Bool) (x y : A)
    → (b ≡ true → P x)
    → (b ≡ false → P y)
    → P (if b then x else y)
if_keeps P true x y h g = h refl
if_keeps P false x y h g = g refl

pub option_keeps {ℓ ℓ' ℓ''} :
    {A : Type ℓ} {B : Type ℓ'} (P : B → Type ℓ'') (o : Option A) (b : B) (f : A → B)
    → (o ≡ none → P b)
    → ((a : A) → o ≡ some a → P (f a))
    → P (elim o [ none ↦ b | some a ↦ f a ])
option_keeps P none b f h g = h refl
option_keeps P (some a) b f h g = g a refl
