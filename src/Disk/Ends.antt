-- ===== src/Disk/Ends.antt =====
-- How a chain of calls ends: what holds where it succeeds, and what where it fails.
use mathlib.Core.Path.{subst}
use multus_cni.Base.{
  String, ◌≡◌, ◌≢◌, refl, Bool, eq_self, inl, inr, Option, Option-cases, none, some, string_eq,
  if◌then◌else◌, arith,
}
use multus_cni.Base.Result.{ok, err, Error}
use multus_cni.Base.Outcome.{Outcome, next}
use multus_cni.Disk.{
  FileAction, stat, read, open_for_read, remove, open_for_write, write, Disk, Io, ◌>>=◌, reworded,
  after_error, text_of, store, overlay, attempt, answered, found, lift, give, stat_file, open_text,
  read_text, open_file, write_text, written_by, remove_file, dropped,
}

pub data Ends {A : Type 0} (P : A → Disk → Type 0) (Q : Disk → Type 0)
    : Outcome Disk A → Type 0 where
  succeeds : {a : A} {d : Disk} → P a d → Ends P Q (ok a, d)
  refuses : {e : Error} {d : Disk} → Q d → Ends P Q (err e, d)

module _ {A : Type 0} {P : A → Disk → Type 0} {Q : Disk → Type 0} where
  pub Ends-next :
      {B : Type 0} {R : B → Disk → Type 0} {x : Outcome Disk A} {f : A → Disk → Outcome Disk B}
      → Ends P Q x
      → ((a : A) (d : Disk) → P a d → Ends R Q (f a d))
      → Ends R Q (next f x)
  Ends-next (succeeds p) h = h _ _ p
  Ends-next (refuses q) h = refuses q

  pub Ends-reworded : {x : Outcome Disk A} (text : String) → Ends P Q x → Ends P Q (reworded text x)
  Ends-reworded text (succeeds p) = succeeds p
  Ends-reworded text (refuses q) = refuses q

  pub Ends-map :
      {R : A → Disk → Type 0} {S : Disk → Type 0} {x : Outcome Disk A}
      → ((a : A) (d : Disk) → P a d → R a d)
      → ((d : Disk) → Q d → S d)
      → Ends P Q x
      → Ends R S x
  Ends-map f g (succeeds p) = succeeds (f _ _ p)
  Ends-map f g (refuses q) = refuses (g _ q)

pub Ends-after_error :
    {P : Unit {0} → Disk → Type 0} {Q : Disk → Type 0} (cleanup : Io (Unit {0}))
    {x : Outcome Disk (Unit {0})}
    → ((d : Disk) → Q d → Q (cleanup d).1)
    → Ends P Q x
    → Ends P Q (after_error cleanup x)
Ends-after_error cleanup h (succeeds p) = succeeds p
Ends-after_error cleanup h (refuses q) = refuses (h _ q)

-- Calls that read keep what holds of the disk.
module _ {P : Disk → Type 0} where
  found-Ends :
      (path : String) (o : Option String) (d : Disk)
      → d.files path ≡ o
      → P d
      → Ends (λ text d'. P d' × (d'.files path ≡ some text)) P (found o, d)
  unfolding found
  found-Ends path none d e h = refuses h
  found-Ends path (some text) d e h = succeeds (h, e)

  answering : (o : Option Error) (d : Disk) → P d → Ends (λ _. P) P (answered o d)
  unfolding answered
  answering none d h = succeeds h
  answering (some e) d h = refuses h

  pub attempt-Ends :
      (action : FileAction) (path : String) (d : Disk)
      → P d
      → Ends (λ _. P) P (attempt action path d)
  unfolding attempt
  attempt-Ends action path d h = answering (d.fault action path) d h

  present :
      (path : String) (d : Disk)
      → P d
      → Ends (λ _. P) P ((lift (found (d.files path)) >>= λ _. give tt) d)
  present path d h = Ends-next (found-Ends path (d.files path) d refl h) λ _ _ (p, _). succeeds p

  pub stat_file-Ends : (path : String) (d : Disk) → P d → Ends (λ _. P) P (stat_file path d)
  unfolding stat_file
  stat_file-Ends path d h = Ends-next (attempt-Ends stat path d h) λ _ d' p. present path d' p

  pub open_text-Ends : (path : String) (d : Disk) → P d → Ends (λ _. P) P (open_text path d)
  unfolding open_text
  open_text-Ends path d h =
      Ends-next (attempt-Ends open_for_read path d h) λ _ d' p. present path d' p

  pub read_text-Ends :
      (path : String) (d : Disk)
      → P d
      → Ends (λ text d'. P d' × (d'.files path ≡ some text)) P (read_text path d)
  unfolding read_text
  read_text-Ends path d h =
      Ends-next (attempt-Ends read path d h) λ _ d' p. found-Ends path (d'.files path) d' refl p

-- All files but one are as they were.
abbrev pub OnlyAt : String → Disk → Disk → Type 0
OnlyAt temp d d' = (p : String) → p ≢ temp → d'.files p ≡ d.files p

-- The file has a text, and all others are as they were.
abbrev pub Holds : String → String → Disk → Disk → Type 0
Holds temp text d d' = (d'.files temp ≡ some text) × OnlyAt temp d d'

module _ (d : Disk) (temp : String) where
  store-OnlyAt :
      (text : Option String) (d' : Disk) → OnlyAt temp d d' → OnlyAt temp d (store temp text d')
  store-OnlyAt text d' h p ne = ground (arith, ne, h p ne)

  store-Holds :
      (text : String) (d' : Disk) → OnlyAt temp d d' → Holds temp text d (store temp (some text) d')
  store-Holds text d' h = (rw (eq_self temp) refl, store-OnlyAt (some text) d' h)

  pub attempt-Holds :
      (action : FileAction) (text path : String) (d' : Disk)
      → Holds temp text d d'
      → Ends (λ _. Holds temp text d) (OnlyAt temp d) (attempt action path d')
  attempt-Holds action text path d' h =
      Ends-map (λ _ _ p. p) (λ _ p. p.1) (attempt-Ends {P = Holds temp text d} action path d' h)

  pub open_file-Ends :
      (truncate : Bool)
      → Ends
          (λ _. Holds temp (if truncate then "" else text_of (d.files temp)) d)
          (OnlyAt temp d)
          (open_file truncate temp d)
  unfolding open_file
  open_file-Ends truncate =
      Ends-next
        (Ends-map {R = λ _ d'. OnlyAt temp d d' × (d'.files temp ≡ d.files temp)} (λ _ _ h. h)
          (λ _ h. h.0)
          (attempt-Ends {P = λ d'. OnlyAt temp d d' × (d'.files temp ≡ d.files temp)} open_for_write
            temp d ((λ p ne. refl), refl)))
        λ _ d' (h, e).
          let text : Option String → String = λ o. if truncate then "" else text_of o in
          succeeds (
            subst (λ o. Holds temp (text o) d (store temp (some (text (d'.files temp))) d')) e
              (store-Holds (text (d'.files temp)) d' h))

  written_by-Ends :
      (o : Option Error) (text old : String) (d' : Disk)
      → Holds temp old d d'
      → Ends (λ _. Holds temp (overlay text old) d) (OnlyAt temp d) (written_by o temp text d')
  unfolding written_by
  written_by-Ends none text old d' (e, h) =
      let new : Option String → String = λ o. overlay text (text_of o) in
      succeeds (
        subst (λ o. Holds temp (new o) d (store temp (some (new (d'.files temp))) d')) e
          (store-Holds (new (d'.files temp)) d' h))
  written_by-Ends (some f) text old d' (e, h) = refuses (store-OnlyAt _ d' h)

  pub write_text-Ends :
      (text old : String) (d' : Disk)
      → Holds temp old d d'
      → Ends (λ _. Holds temp (overlay text old) d) (OnlyAt temp d) (write_text temp text d')
  unfolding write_text
  write_text-Ends text old d' h = written_by-Ends (d'.fault write temp) text old d' h

  dropped-OnlyAt :
      (o : Option String) (d' : Disk) → OnlyAt temp d d' → OnlyAt temp d (dropped o temp d').1
  unfolding dropped
  dropped-OnlyAt none d' h = h
  dropped-OnlyAt (some text) d' h = store-OnlyAt none d' h

  pub remove_file-OnlyAt : (d' : Disk) → OnlyAt temp d d' → OnlyAt temp d (remove_file temp d').1
  unfolding remove_file attempt answered
  remove_file-OnlyAt d' h = elim (Option-cases (d'.fault remove temp)) [
    | inl e ↦ rw (e, answered) (dropped-OnlyAt (d'.files temp) d' h)
    | inr (f, e) ↦ rw (e, answered) h
  ]
