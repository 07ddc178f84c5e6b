-- ===== src/Pages/Send/Copy.antt =====
-- The button `btn-copy` of the send page: what it copies with, and what it says. The selection of the
-- text field before the copy is left out.
use p2ptransfer.Base.{
  ℕ, zero, suc, ◌+◌, ◌<◌, ◌≡◌, ◌≢◌, ◌⊎◌, inl, inr, refl, arith, List, [], ◌∷◌, Option, none, some,
  Bool, true, false,
}

pub data Label : Type 0 where
  copy copied press_ctrl_c : Label

-- `timers` counts the timeouts that have not fired, `writing` the clicks at the await of `writeText`,
-- `done` the copies that succeeded.
pub record Button : Type 0 where
  pub label : Label
  pub timers : ℕ
  pub writing : ℕ
  pub done : ℕ

abbrev pub new_button : Button
new_button = record { label = copy; timers = 0; writing = 0; done = 0 }

unfoldable pub flash_ok : Button → Button
flash_ok b = record b { label = copied; timers = b.timers + 1; done = b.done + 1 }

unfoldable pub flash_fail : Button → Button
flash_fail b = record b { label = press_ctrl_c; timers = b.timers + 1 }

-- `document.execCommand('copy')`, which throws for `none`.
unfoldable pub legacy : Option Bool → Button → Button
unfolding flash_ok flash_fail
legacy none b = flash_fail b
legacy (some true) b = flash_ok b
legacy (some false) b = flash_fail b

-- The click, with whether the clipboard is there in a secure context.
unfoldable pub click_copy : Bool → Option Bool → Button → Button
unfolding legacy
click_copy true command b = record b { writing = b.writing + 1 }
click_copy false command b = legacy command b

-- `writeText` answers one of the clicks that wait, or refuses it.
unfoldable pub written : Bool → Option Bool → ℕ → Button → Button
unfolding flash_ok legacy
written ok command zero b = b
written true command (suc writing) b = flash_ok (record b { writing = writing })
written false command (suc writing) b = legacy command (record b { writing = writing })

-- A timeout of `flashOk` or `flashFail`.
unfoldable pub reset : ℕ → Button → Button
reset zero b = b
reset (suc timers) b = record b { label = copy; timers = timers }

pub data CopyEvent : Type 0 where
  copies : Bool → Option Bool → CopyEvent
  writes : Bool → Option Bool → CopyEvent
  resets : CopyEvent

unfoldable pub copy_step : CopyEvent → Button → Button
unfolding click_copy written reset
copy_step (copies secure command) b = click_copy secure command b
copy_step (writes ok command) b = written ok command b.writing b
copy_step resets b = reset b.timers b

unfoldable pub copy_run : List CopyEvent → Button → Button
unfolding copy_step
copy_run [] b = b
copy_run (e ∷ es) b = copy_run es (copy_step e b)

-- `Copied!` needs a copy that succeeded, and a label other than `Copy` a timeout that will take it
-- back.
abbrev IsHonest : Button → Type 0
IsHonest b = ((b.label ≡ copy) ⊎ (0 < b.timers)) × ((b.label ≢ copied) ⊎ (0 < b.done))

flash_ok-IsHonest : (b : Button) → IsHonest (flash_ok b)
unfolding flash_ok
flash_ok-IsHonest b = (inr (omega arith), inr (omega arith))

flash_fail-IsHonest : (b : Button) → IsHonest (flash_fail b)
unfolding flash_fail
flash_fail-IsHonest b = (inr (omega arith), inl λ e. ground (arith, e))

legacy-IsHonest : (command : Option Bool) (b : Button) → IsHonest (legacy command b)
unfolding legacy
legacy-IsHonest none b = flash_fail-IsHonest b
legacy-IsHonest (some true) b = flash_ok-IsHonest b
legacy-IsHonest (some false) b = flash_fail-IsHonest b

written-IsHonest :
    (ok : Bool) (command : Option Bool) (k : ℕ) (b : Button)
    → IsHonest b
    → IsHonest (written ok command k b)
unfolding written
written-IsHonest ok command zero b h = h
written-IsHonest true command (suc k) b h = flash_ok-IsHonest (record b { writing = k })
written-IsHonest false command (suc k) b h = legacy-IsHonest command (record b { writing = k })

reset-IsHonest : (k : ℕ) (b : Button) → IsHonest b → IsHonest (reset k b)
unfolding reset
reset-IsHonest zero b h = h
reset-IsHonest (suc k) b h = (inl refl, inl λ e. ground (arith, e))

copy_step-IsHonest : (e : CopyEvent) (b : Button) → IsHonest b → IsHonest (copy_step e b)
unfolding copy_step click_copy
copy_step-IsHonest (copies true command) b h = h
copy_step-IsHonest (copies false command) b h = legacy-IsHonest command b
copy_step-IsHonest (writes ok command) b h = written-IsHonest ok command b.writing b h
copy_step-IsHonest resets b h = reset-IsHonest b.timers b h

copy_run-IsHonest : (es : List CopyEvent) (b : Button) → IsHonest b → IsHonest (copy_run es b)
unfolding copy_run
copy_run-IsHonest [] b h = h
copy_run-IsHonest (e ∷ es) b h = copy_run-IsHonest es (copy_step e b) (copy_step-IsHonest e b h)

-- After any clicks, answers of the clipboard and timeouts, in any order, the button says `Copy` or has
-- a timeout ahead, and it says something other than `Copied!` or has copied.
pub copy_run-label :
    (es : List CopyEvent)
    → (((copy_run es new_button).label ≡ copy) ⊎ (0 < (copy_run es new_button).timers))
      × (((copy_run es new_button).label ≢ copied) ⊎ (0 < (copy_run es new_button).done))
copy_run-label es = copy_run-IsHonest es new_button (inl refl, inl λ e. ground (arith, e))
