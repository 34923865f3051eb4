-- ===== src/Disk/Removal.antt =====
-- Two files that are removed.
use multus_cni.Base.{String, ◌≡◌, refl, ap, ◌∙◌, Option, none, some, string_eq, eq_self, arith}
use multus_cni.Disk.{remove, Disk, attempt, answered, remove_file, dropped}

dropped-none :
    (o : Option String) (path : String) (d : Disk)
    → d.files path ≡ o
    → (dropped o path d).1.files path ≡ none
unfolding dropped
dropped-none none path d e = e
dropped-none (some text) path d e = rw (eq_self path) refl

dropped-keeps :
    (o : Option String) (path other : String) (d : Disk)
    → d.files other ≡ none
    → (dropped o path d).1.files other ≡ none
unfolding dropped
dropped-keeps none path other d e = e
dropped-keeps (some text) path other d e = ground (arith, e)

dropped-fault :
    (o : Option String) (path : String) (d : Disk) → (dropped o path d).1.fault ≡ d.fault
unfolding dropped
dropped-fault none path d = refl
dropped-fault (some text) path d = refl

module _ (path : String) (d : Disk) (allowed : d.fault remove path ≡ none) where
  remove_file-eq : remove_file path d ≡ dropped (d.files path) path d
  unfolding remove_file attempt answered
  remove_file-eq = rw (allowed, answered) refl

pub removed_both :
    (a b : String) (d : Disk)
    → d.fault remove a ≡ none
    → d.fault remove b ≡ none
    → let d' = (remove_file b (remove_file a d).1).1 in (d'.files a ≡ none) × (d'.files b ≡ none)
removed_both a b d fa fb = rw (remove_file-eq a d fa) (
    let d1 = (dropped (d.files a) a d).1 in
    rw (remove_file-eq b d1 (ap (λ f. f remove b) (dropped-fault (d.files a) a d) ∙ fb)) (
      dropped-keeps (d1.files b) b a d1 (dropped-none (d.files a) a d refl),
      dropped-none (d1.files b) b d1 refl,
    ))
