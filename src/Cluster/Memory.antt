-- ===== src/Cluster/Memory.antt =====
-- A cluster held as a list of objects: a client for which the assumed behaviour of the API server
-- holds. It stands for the server in the examples, and models no code of the repository.
use qubership_monitoring_ope.Prelude.{
  ◌≡◌, ◌≢◌, ◌∙◌, refl, Bool, true, false, List, [], ◌∷◌, Option, none, some, if◌then◌else◌, ap, inl,
  inr, Bool-cases, Option-cases, arith,
}
use qubership_monitoring_ope.Exec.{Error, Outcome, err, is_not_found, not_found, ok, other, panic}
use qubership_monitoring_ope.Cluster.{Client, IsLawful, Key, Object, SameContent, key}
use qubership_monitoring_ope.Cluster.Keys.{same_key, same_key-eq, same_key-differ, same_key_refl}

module _ {V : Type 0} where
  abbrev pub find : Key → List (Object V) → Option (Object V)
  find k [] = none
  find k (o ∷ os) = if same_key (key o) k then some o else find k os

  abbrev pub remove : Key → List (Object V) → List (Object V)
  remove k [] = []
  remove k (o ∷ os) = if same_key (key o) k then remove k os else o ∷ remove k os

  unfoldable pub answer : Option (Object V) → Outcome (Object V)
  answer none = err (record { reason = not_found; message = "not found" })
  answer (some o) = ok o

  unfoldable pub created :
      Object V → List (Object V) → Option (Object V) → Option Error × List (Object V)
  created o s none = (none, o ∷ s)
  created o s (some e) = (some (record { reason = other; message = "already exists" }), s)

  unfoldable pub updated :
      Object V → List (Object V) → Option (Object V) → Option Error × List (Object V)
  updated o s none = (some (record { reason = not_found; message = "not found" }), s)
  updated o s (some e) = (none, o ∷ s)

  unfoldable pub deleted :
      Object V → List (Object V) → Option (Object V) → Option Error × List (Object V)
  deleted o s none = (some (record { reason = not_found; message = "not found" }), s)
  deleted o s (some e) = (none, remove (key o) s)

  unfoldable pub read : Key → List (Object V) → Outcome (Object V)
  unfolding answer
  read k s = answer (find k s)

  unfoldable pub create_in : Object V → List (Object V) → Option Error × List (Object V)
  unfolding created
  create_in o s = created o s (find (key o) s)

  unfoldable pub update_in : Object V → List (Object V) → Option Error × List (Object V)
  unfolding updated
  update_in o s = updated o s (find (key o) s)

  unfoldable pub delete_in : Object V → List (Object V) → Option Error × List (Object V)
  unfolding deleted
  delete_in o s = deleted o s (find (key o) s)

  find-put : (o : Object V) (s : List (Object V)) → find (key o) (o ∷ s) ≡ some o
  find-put o s = rw (same_key_refl (key o)) refl

  find-put_other :
      (o : Object V) (s : List (Object V)) (k : Key) → k ≢ key o → find k (o ∷ s) ≡ find k s
  find-put_other o s k ne = rw (same_key-differ k (key o) ne) refl

  find-remove : (k : Key) (s : List (Object V)) → find k (remove k s) ≡ none
  find-remove k [] = refl
  find-remove k (o ∷ s) = elim (Bool-cases (same_key (key o) k)) [
    | inl same ↦ rw same (find-remove k s)
    | inr other_key ↦ rw (other_key, other_key) (find-remove k s)
  ]

  find-remove_other : (j k : Key) (s : List (Object V)) → k ≢ j → find k (remove j s) ≡ find k s
  find-remove_other j k [] ne = refl
  find-remove_other j k (o ∷ s) ne = elim (Bool-cases (same_key (key o) j)) [
    | inl same ↦
        let away : same_key (key o) k ≡ false =
          same_key-differ k (key o) (λ e. ne (e ∙ same_key-eq (key o) j same)) in
        rw (same, away) (find-remove_other j k s ne)
    | inr other_key ↦
        rw other_key
          (ap (λ t. if same_key (key o) k then some o else t) (find-remove_other j k s ne))
  ]

  found :
      (b : Bool) (a o : Object V) (rest : Option (Object V))
      → b ≡ true
      → (if b then some a else rest) ≡ some o
      → o ≡ a
  found b a o rest t h = ground arith

  find-key : (k : Key) (s : List (Object V)) (o : Object V) → find k s ≡ some o → key o ≡ k
  find-key k [] o h = cc
  find-key k (a ∷ s) o h = elim (Bool-cases (same_key (key a) k)) [
    | inl same ↦
        ap key (found (same_key (key a) k) a o (find k s) same h) ∙ same_key-eq (key a) k same
    | inr other_key ↦ find-key k s o (rw other_key at h)
  ]

abbrev pub memory : (V : Type 0) → Client V
memory V = record {
  Cluster = List (Object V);
  get = read;
  create = create_in;
  update = update_in;
  delete = delete_in;
}

module _ {V : Type 0} where
  same_content : (o : Object V) → SameContent o o
  same_content o = record { labels = refl; annotations = refl; field = λ p. refl }

  create_in-read :
      (o : Object V) (s : List (Object V))
      → (create_in o s).0 ≡ none
      → read (key o) (create_in o s).1 ≡ ok o
  unfolding read create_in answer created
  create_in-read o s h = elim (Option-cases (find (key o) s)) [
    | inl missing ↦ rw (missing, find-put o s) refl
    | inr (e, there) ↦ absurd (ground (arith, there))
  ]

  update_in-read :
      (o : Object V) (s : List (Object V))
      → (update_in o s).0 ≡ none
      → read (key o) (update_in o s).1 ≡ ok o
  unfolding read update_in answer updated
  update_in-read o s h = elim (Option-cases (find (key o) s)) [
    | inl missing ↦ absurd (ground (arith, missing))
    | inr (e, there) ↦ rw (there, find-put o s) refl
  ]

  delete_in-read :
      (o : Object V) (s : List (Object V))
      → (delete_in o s).0 ≡ none
      → read (key o) (delete_in o s).1 ≡ err (record { reason = not_found; message = "not found" })
  unfolding read delete_in answer deleted
  delete_in-read o s h = elim (Option-cases (find (key o) s)) [
    | inl missing ↦ absurd (ground (arith, missing))
    | inr (e, there) ↦ rw (there, find-remove (key o) s) refl
  ]

  create_in-frame :
      (o : Object V) (s : List (Object V)) (k : Key)
      → k ≢ key o
      → read k (create_in o s).1 ≡ read k s
  unfolding read create_in answer created
  create_in-frame o s k ne = elim (Option-cases (find (key o) s)) [
    | inl missing ↦ rw (missing, find-put_other o s k ne) refl
    | inr (e, there) ↦ rw there refl
  ]

  update_in-frame :
      (o : Object V) (s : List (Object V)) (k : Key)
      → k ≢ key o
      → read k (update_in o s).1 ≡ read k s
  unfolding read update_in answer updated
  update_in-frame o s k ne = elim (Option-cases (find (key o) s)) [
    | inl missing ↦ rw missing refl
    | inr (e, there) ↦ rw (there, find-put_other o s k ne) refl
  ]

  delete_in-frame :
      (o : Object V) (s : List (Object V)) (k : Key)
      → k ≢ key o
      → read k (delete_in o s).1 ≡ read k s
  unfolding read delete_in answer deleted
  delete_in-frame o s k ne = elim (Option-cases (find (key o) s)) [
    | inl missing ↦ rw missing refl
    | inr (e, there) ↦ rw (there, find-remove_other (key o) k s ne) refl
  ]

  read-key : (k : Key) (s : List (Object V)) (o : Object V) → read k s ≡ ok o → key o ≡ k
  unfolding read answer
  read-key k s o h = elim (Option-cases (find k s)) [
    | inl missing ↦ absurd (ground (arith, missing))
    | inr (e, there) ↦ find-key k s o (ground (arith, there))
  ]

pub memory-IsLawful : (V : Type 0) → IsLawful (memory V)
memory-IsLawful V = record {
  create_stores = λ o s h. (o, create_in-read o s h, same_content o);
  update_stores = λ o s h. (o, update_in-read o s h, same_content o);
  delete_removes =
      λ o s h. (record { reason = not_found; message = "not found" }, delete_in-read o s h, refl);
  create_frame = create_in-frame;
  update_frame = update_in-frame;
  delete_frame = delete_in-frame;
  get_key = read-key;
}

-- Reads find the object or answer NotFound, and what is found can be deleted.
pub read-answers :
    {V : Type 0} (k : Key) (s : List (Object V)) (e : Error)
    → read k s ≡ err e
    → is_not_found e ≡ true
unfolding read answer is_not_found
read-answers k s e h = elim (Option-cases (find k s)) [
  | inl missing ↦ ground (arith, missing)
  | inr (o, there) ↦ absurd (ground (arith, there))
]

pub read-returns : {V : Type 0} (k : Key) (s : List (Object V)) → read k s ≡ panic → ⊥
unfolding read answer
read-returns k s h = elim (Option-cases (find k s)) [
  | inl missing ↦ absurd (ground (arith, missing))
  | inr (o, there) ↦ absurd (ground (arith, there))
]

pub delete_in-accepts :
    {V : Type 0} (o : Object V) (s : List (Object V))
    → read (key o) s ≡ ok o
    → (delete_in o s).0 ≡ none
unfolding read answer delete_in deleted
delete_in-accepts o s h = elim (Option-cases (find (key o) s)) [
  | inl missing ↦ absurd (ground (arith, missing))
  | inr (e, there) ↦ rw there refl
]
