-- ===== src/Depot/Install/Desk.antt =====
-- A small host, for the tests: the modules and the files are maps, and a module is healthy while
-- its archive is not empty.
use text.Mathlib.Text.{◌==◌}
use text.Mathlib.TextPositions.{eq_refl}
use fenrir.Prelude.{
  ℕ, ◌≡◌, ◌≢◌, refl, sym, ◌∙◌, ap, String, Bool, true, false, ◌&&◌, Option, none, some, List, [],
  ◌∷◌, if◌then◌else◌, eq_iff, arith, inl, inr, Bool-cases,
}
use fenrir.Prelude.Exec.{Exec, Result, ok, err, Keeps}
use fenrir.Depot.Numbered.{numbered}
use fenrir.Depot.State.{default}
use fenrir.Depot.Machine.{Machine, Manifest, FilePath, backup_file, blob, Same, SameBut, Contract}

pub record Desk : Type 0 where
  pub contents : String → Option (Manifest numbered × List ℕ)
  pub file : FilePath → Option (List ℕ)

abbrev same_path : FilePath → FilePath → Bool
same_path (backup_file a b) (backup_file c d) = (a == c) && (b == d)
same_path (blob a) (blob b) = a == b
same_path _ _ = false

abbrev put : String → Option (Manifest numbered × List ℕ) → Desk → Desk
put id found w = record {
  contents = λ other. if id == other then found else w.contents other;
  file = w.file;
}

abbrev save_file : FilePath → List ℕ → Desk → Desk
save_file path bytes w = record {
  contents = w.contents;
  file = λ other. if same_path path other then some bytes else w.file other;
}

abbrev fetched : {A : Type 0} → Option A → Result String A
fetched none = err "no such file"
fetched (some a) = ok a

abbrev packed :
    String
    → FilePath
    → Option (Manifest numbered × List ℕ)
    → Exec Desk String (Option (Manifest numbered))
packed id path none w = (ok none, w)
packed id path (some (manifest, bytes)) w =
    if manifest.id == id then (ok (some manifest), save_file path bytes w) else (err "misplaced", w)

abbrev health : Option (Manifest numbered × List ℕ) → Result String (Unit {0})
health none = err "unhealthy"
health (some (manifest, [])) = err "unhealthy"
health (some (manifest, b ∷ bytes)) = ok tt

abbrev fine : {A : Type 0} → A → Exec Desk String A
fine a w = (ok a, w)

abbrev pub desk : Machine numbered
desk = record {
  World = Desk;
  Tree = List ℕ;
  unpack = λ bytes. bytes;
  contents = λ w. w.contents;
  file = λ w. w.file;
  modules = fine [];
  backup = λ id path w. packed id path (w.contents id) w;
  stop = λ id. fine tt;
  activate = λ b w. (ok tt, put b.manifest.id (some (b.manifest, b.archive)) w);
  remove = λ id w. (ok tt, put id none w);
  apply_migrations = fine;
  start = λ ids. fine tt;
  rolling_restart = λ id. fine tt;
  wait_healthy = λ id w. (health (w.contents id), w);
  read = λ path w. (fetched (w.file path), w);
  file_size = λ path. fine 1;
  create_backup_dir = λ name. fine tt;
  take_lock = λ w. (ok tt, w);
  drop_lock = λ w. w;
  load = fine (default numbered);
  save = λ state. fine tt;
  save_backup = λ name r. fine tt;
  prune_backups = λ kept. fine tt;
  prune_cache = λ kept w. w;
}

still :
    {E A : Type 0} (m : Exec Desk E A) → ((w : Desk) → (m w).1 ≡ w) → Keeps (Same numbered desk) m
still m h = record {
  holds = λ w.
      (λ id. ap (λ (v : Desk). v.contents id) (h w), λ path. ap (λ (v : Desk). v.file path) (h w));
}

fetched-ok :
    (found : Option (List ℕ)) (bytes : List ℕ) → fetched found ≡ ok bytes → found ≡ some bytes
fetched-ok none bytes e = absurd (ground arith)
fetched-ok (some b) bytes e = ground arith

put-SameBut :
    (id : String) (found : Option (Manifest numbered × List ℕ)) (w : Desk)
    → SameBut numbered desk id w (put id found w)
put-SameBut id found w = (λ other apart. elsewhere other apart, λ path. refl)
  where
    elsewhere : (other : String) → other ≢ id → (put id found w).contents other ≡ w.contents other
    elsewhere other apart = elim (Bool-cases (id == other)) [
      | inl h ↦ absurd (apart (sym ((eq_iff id other).0 h)))
      | inr h ↦ rw h refl
    ]

put-same :
    (id : String) (found : Option (Manifest numbered × List ℕ)) (w : Desk)
    → (put id found w).contents id ≡ found
put-same id found w = rw (eq_refl id) refl

same_path_refl : (path : FilePath) → same_path path path ≡ true
same_path_refl (backup_file a b) = ground (arith, eq_refl a, eq_refl b)
same_path_refl (blob a) = eq_refl a

same_path_sound : (p q : FilePath) → same_path p q ≡ true → p ≡ q
same_path_sound (backup_file a b) (backup_file c d) h =
    let first = (eq_iff a c).0 (ground arith) in
    let second = (eq_iff b d).0 (ground arith) in
    ap (λ x. backup_file x b) first ∙ ap (backup_file c) second
same_path_sound (blob a) (blob b) h = ap blob ((eq_iff a b).0 h)
same_path_sound (backup_file a b) (blob c) h = absurd (ground arith)
same_path_sound (blob a) (backup_file c d) h = absurd (ground arith)

packed-contents :
    (id : String) (path : FilePath) (found : Option (Manifest numbered × List ℕ)) (w : Desk)
    (other : String)
    → (packed id path found w).1.contents other ≡ w.contents other
packed-contents id path none w other = refl
packed-contents id path (some (manifest, bytes)) w other = elim (Bool-cases (manifest.id == id)) [
  | inl h ↦ rw h refl
  | inr h ↦ rw h refl
]

saved_elsewhere :
    (path other : FilePath) (bytes : List ℕ) (w : Desk)
    → other ≢ path
    → (save_file path bytes w).file other ≡ w.file other
saved_elsewhere path other bytes w apart = elim (Bool-cases (same_path path other)) [
  | inl h ↦ absurd (apart (sym (same_path_sound path other h)))
  | inr h ↦ rw h refl
]

saved_here :
    (path : FilePath) (bytes : List ℕ) (w : Desk) → (save_file path bytes w).file path ≡ some bytes
saved_here path bytes w = rw (same_path_refl path) refl

packed-file :
    (id : String) (path : FilePath) (found : Option (Manifest numbered × List ℕ)) (w : Desk)
    (other : FilePath)
    → other ≢ path
    → (packed id path found w).1.file other ≡ w.file other
packed-file id path none w other apart = refl
packed-file id path (some (manifest, bytes)) w other apart = elim (Bool-cases (manifest.id == id)) [
  | inl h ↦ rw h (saved_elsewhere path other bytes w apart)
  | inr h ↦ rw h refl
]

some_injective : {a b : List ℕ} → some a ≡ some b → a ≡ b
some_injective e = ground (arith)

packed-none :
    (id : String) (path : FilePath) (found : Option (Manifest numbered × List ℕ)) (w : Desk)
    → (packed id path found w).0 ≡ ok none
    → found ≡ none
packed-none id path none w e = refl
packed-none id path (some (manifest, bytes)) w e = absurd (ground arith)

packed-some :
    (id : String) (path : FilePath) (found : Option (Manifest numbered × List ℕ)) (w : Desk)
    (manifest : Manifest numbered)
    → (packed id path found w).0 ≡ ok (some manifest)
    → (manifest.id ≡ id)
      × ((bytes : List ℕ)
          → (packed id path found w).1.file path ≡ some bytes
          → found ≡ some (manifest, bytes))
packed-some id path none w manifest e = absurd (ground arith)
packed-some id path (some (m, bytes)) w manifest e = elim (Bool-cases (m.id == id)) [
  | inl h ↦
      let same : m ≡ manifest = ground (arith) in
      (
        ap (λ (n : Manifest numbered). n.id) (sym same) ∙ (eq_iff m.id id).0 h,
        rw h (λ bytes' of_file.
            let same_bytes : bytes ≡ bytes' =
              some_injective (sym (saved_here path bytes w) ∙ of_file) in
            ap {B = Option (Manifest numbered × List ℕ)}
              (λ (n : Manifest numbered). some (n, bytes)) same
            ∙ ap {B = Option (Manifest numbered × List ℕ)} (λ (b : List ℕ). some (manifest, b))
                same_bytes),
      )
  | inr h ↦ absurd (ground arith)
]

pub desk_keeps : Contract numbered desk
desk_keeps = record {
  stop-Keeps = λ id. still _ (λ w. refl);
  start-Keeps = λ ids. still _ (λ w. refl);
  apply_migrations-Keeps = λ ids. still _ (λ w. refl);
  rolling_restart-Keeps = λ id. still _ (λ w. refl);
  wait_healthy-Keeps = λ id. still _ (λ w. refl);
  read-Keeps = λ path. still _ (λ w. refl);
  file_size-Keeps = λ path. still _ (λ w. refl);
  create_backup_dir-Keeps = λ name. still _ (λ w. refl);
  take_lock-Keeps = still _ (λ w. refl);
  drop_lock-Same = λ w. (λ id. refl, λ path. refl);
  load-Keeps = still _ (λ w. refl);
  save_backup-Keeps = λ name r. still _ (λ w. refl);
  read_lem = λ path w bytes e. fetched-ok (w.file path) bytes e;
  backup-contents = λ id path w other. packed-contents id path (w.contents id) w other;
  backup-file = λ id path other w apart. packed-file id path (w.contents id) w other apart;
  backup_none = λ id path w e. packed-none id path (w.contents id) w e;
  backup_some = λ id path w manifest e. packed-some id path (w.contents id) w manifest e;
  activate-SameBut = λ b w. put-SameBut b.manifest.id (some (b.manifest, b.archive)) w;
  activate_ok = λ b w e. put-same b.manifest.id (some (b.manifest, b.archive)) w;
  remove-SameBut = λ id w. put-SameBut id none w;
  remove_ok = λ id w e. put-same id none w;
  save-contents = λ state w id. refl;
  prune_backups-contents = λ kept w id. refl;
  prune_cache-contents = λ kept w id. refl;
}
