-- ===== src/Programs/AuthorityReader.antt =====
-- apps/authority_reader.cpp: the reader that tracks which writer's samples it sees of each source. Of
-- a sample the model takes its source, the handle of its writer and whether it has data. `log` is what
-- the listener prints of the owners.
use resilient_dds_data_plane.Base.{
  ℕ, ◌+◌, ◌/◌, ◌%◌, ◌^◌, ◌≡◌, refl, sym, inl, inr, Bool, false, not, Option, none, some, List, [],
  ◌∷◌, ◌++◌, ℤ, pos, Bytes, arith, if◌then◌else◌, str_eq, eq_of_str_eq, str_eq_refl, Bool-cases,
  Option-cases,
}
use resilient_dds_data_plane.Base.Dict
use resilient_dds_data_plane.Base.Dict.{Dict}
use resilient_dds_data_plane.Audit.{hex_digit}
use mathlib.Core.List.{append_assoc, append-nil}

-- handle_hex, on the bytes of an instance handle.
unfoldable pub handle_hex : Bytes → Bytes
handle_hex [] = []
handle_hex (c ∷ s) = hex_digit (c / 16) ∷ hex_digit (c % 16) ∷ handle_hex s

pub record Seen : Type 0 where
  pub source : Bytes
  pub publication_handle : Bytes
  pub valid_data : Bool

pub data Line : Type 0 where
  owner_active : Bytes → Bytes → Line
  owner_change : Bytes → Bytes → Bytes → Line

pub record Reader : Type 0 where
  pub visible_owner : Dict Bytes
  pub samples : ℕ  -- uint64
  pub matches : ℤ
  pub log : List Line

abbrev pub new_reader : Reader
new_reader = record { visible_owner = []; samples = 0; matches = pos 0; log = [] }

unfoldable pub on_subscription_matched : ℤ → Reader → Reader
on_subscription_matched current_count r = record r { matches = current_count }

-- The table and the lines after a valid sample.
unfoldable pub see_owner : Bytes → Bytes → Reader → Reader
see_owner source writer r = elim (Dict.find source r.visible_owner) [
  | none ↦ record r {
    visible_owner = Dict.put source writer r.visible_owner;
    log = r.log ++ (owner_active source writer ∷ []);
  }
  | some current ↦ if str_eq current writer then r else record r {
    visible_owner = Dict.put source writer r.visible_owner;
    log = r.log ++ (owner_change source current writer ∷ []);
  }
]

-- One round of the loop of `on_data_available`.
unfoldable pub take_seen : Seen → Reader → Reader
unfolding see_owner handle_hex
take_seen x r =
    if not x.valid_data
    then r
    else let seen = see_owner x.source (handle_hex x.publication_handle) r in
      record seen { samples = (seen.samples + 1) % 2 ^ 64 }

unfoldable pub on_data_available : List Seen → Reader → Reader
on_data_available [] r = r
on_data_available (x ∷ xs) r = on_data_available xs (take_seen x r)

-- The writers of a source's samples, in order.
abbrev pub writers_of : Bytes → List Seen → List Bytes
writers_of a [] = []
writers_of a (x ∷ xs) =
    let rest = writers_of a xs in
    if x.valid_data
    then if str_eq x.source a then handle_hex x.publication_handle ∷ rest else rest
    else rest

-- The lines that a row of writers of one source asks for, after the owner so far.
abbrev pub handovers : Bytes → Option Bytes → List Bytes → List Line
handovers a o [] = []
handovers a none (w ∷ ws) = owner_active a w ∷ handovers a (some w) ws
handovers a (some o) (w ∷ ws) =
    let rest = handovers a (some w) ws in if str_eq o w then rest else owner_change a o w ∷ rest

abbrev pub last_owner : Option Bytes → List Bytes → Option Bytes
last_owner o [] = o
last_owner o (w ∷ ws) = last_owner (some w) ws

-- The lines about a source.
abbrev pub names : Bytes → Line → Bool
names a (owner_active s w) = str_eq s a
names a (owner_change s v w) = str_eq s a

abbrev pub lines_of : Bytes → List Line → List Line
lines_of a [] = []
lines_of a (l ∷ ls) = let rest = lines_of a ls in if names a l then l ∷ rest else rest

lines_of-append :
    (a : Bytes) (ls ms : List Line) → lines_of a (ls ++ ms) ≡ lines_of a ls ++ lines_of a ms
lines_of-append a [] ms = refl
lines_of-append a (l ∷ ls) ms = ground (arith, lines_of-append a ls ms)

lines_of-add :
    (a : Bytes) (ls : List Line) (l : Line)
    → lines_of a (ls ++ (l ∷ [])) ≡ (if names a l then lines_of a ls ++ (l ∷ []) else lines_of a ls)
lines_of-add a [] l = refl
lines_of-add a (k ∷ ls) l = ground (arith, lines_of-add a ls l)

see_owner_other :
    (a s w : Bytes) (r : Reader)
    → str_eq s a ≡ false
    → (Dict.find a (see_owner s w r).visible_owner ≡ Dict.find a r.visible_owner)
      × (lines_of a (see_owner s w r).log ≡ lines_of a r.log)
unfolding see_owner
see_owner_other a s w r h = elim (Option-cases (Dict.find s r.visible_owner)) [
  | inl e ↦
      rw (e, see_owner)
        (ground
          (arith, Dict.find-put s a w r.visible_owner, lines_of-add a r.log (owner_active s w)))
  | inr (v, e) ↦
      rw (e, see_owner)
        (ground
          (arith, Dict.find-put s a w r.visible_owner, lines_of-add a r.log (owner_change s v w)))
]

see_owner_same :
    (a w : Bytes) (r : Reader)
    → (Dict.find a (see_owner a w r).visible_owner ≡ some w)
      × (lines_of a (see_owner a w r).log
          ≡ lines_of a r.log ++ handovers a (Dict.find a r.visible_owner) (w ∷ []))
unfolding see_owner
see_owner_same a w r = elim (Option-cases (Dict.find a r.visible_owner)) [
  | inl e ↦ rw e (
      ground (
        arith,
        Dict.find-put_self a w r.visible_owner,
        lines_of-add a r.log (owner_active a w),
        str_eq_refl a,
      ))
  | inr (v, e) ↦ rw e (
      ground (
        arith,
        e,
        Dict.find-put_self a w r.visible_owner,
        lines_of-add a r.log (owner_change a v w),
        str_eq_refl a,
        eq_of_str_eq v w,
        append-nil (lines_of a r.log),
      ))
]

handovers_step :
    (a w : Bytes) (o : Option Bytes) (ws : List Bytes)
    → handovers a o (w ∷ ws) ≡ handovers a o (w ∷ []) ++ handovers a (some w) ws
handovers_step a w none ws = refl
handovers_step a w (some v) ws = ground arith

owners_lem :
    (a : Bytes) (xs : List Seen) (r : Reader)
    → let q = on_data_available xs r in
      (Dict.find a q.visible_owner ≡ last_owner (Dict.find a r.visible_owner) (writers_of a xs))
      × (lines_of a q.log
          ≡ lines_of a r.log ++ handovers a (Dict.find a r.visible_owner) (writers_of a xs))
unfolding on_data_available take_seen
owners_lem a [] r = (refl, sym (append-nil (lines_of a r.log)))
owners_lem a (x ∷ xs) r = elim (Bool-cases x.valid_data) [
  | inl v ↦ elim (Bool-cases (str_eq x.source a)) [
    | inl h ↦ ground (
      arith,
      eq_of_str_eq x.source a,
      see_owner_same a (handle_hex x.publication_handle) r,
      owners_lem a xs (take_seen x r),
      handovers_step a (handle_hex x.publication_handle) (Dict.find a r.visible_owner)
          (writers_of a xs),
      append_assoc (lines_of a r.log)
          (handovers a (Dict.find a r.visible_owner) (handle_hex x.publication_handle ∷ []))
          (handovers a (some (handle_hex x.publication_handle)) (writers_of a xs)),
    )
    | inr h ↦ ground (
      arith,
      see_owner_other a x.source (handle_hex x.publication_handle) r h,
      owners_lem a xs (take_seen x r),
    )
  ]
  | inr v ↦ ground (arith, owners_lem a xs r)
]

-- Of any interleaving of sources and writers, the reader's owner of a source is the writer of the
-- last valid sample of that source, and what it prints of the source is exactly its handovers: the
-- first writer once, and then each change of writer from one sample to the next.
pub on_data_available_owners :
    (a : Bytes) (xs : List Seen)
    → let q = on_data_available xs new_reader in
      (Dict.find a q.visible_owner ≡ last_owner none (writers_of a xs))
      × (lines_of a q.log ≡ handovers a none (writers_of a xs))
unfolding Dict.find
on_data_available_owners a xs = owners_lem a xs new_reader
