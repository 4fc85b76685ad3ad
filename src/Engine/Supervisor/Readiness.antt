-- ===== src/Engine/Supervisor/Readiness.antt =====
-- Which languages a spawn makes ready and a crash makes unready again
-- (progressive-lsp-engine/src/supervisor.rs: mark_ready, note_crash_err, is_ready).
use progressive_lsp.Base.{
  ℕ, ◌≡◌, ◌≢◌, refl, ap, Bool, true, false, ◌||◌, not, List, [], ◌∷◌, ◌++◌, Option, none, some,
  Text, text_eq, arith, if◌then◌else◌, ◌==◌, ==_iff, ==_refl, In, contains, any, keep, inl, inr,
}
use progressive_lsp.Base.Map.{get}
use progressive_lsp.Base.OrdMap.{get-insert}
use progressive_lsp.Engine.{EngineError}
use progressive_lsp.Engine.Supervisor.Crashes.{note_crash_err_lem}
use progressive_lsp.Engine.Supervisor.{
  Adapter, ChildHandle, SupervisorState, Supervisor, SupervisedChild, languages_of, with_package,
  ready_pairs, mark_ready, note_crash_err, pair_is, forget_ready, forget_language,
}
use progressive_lsp.Engine.Supervisor.Health.{ready_in}

-- Whether `language` is the one that the child of a pack was spawned for.
pub is_of : Option SupervisedChild → Text → Bool
is_of none language = false
is_of (some child) language = child.language == language

is_of-some : (child : SupervisedChild) (l : Text) → is_of (some child) l ≡ (child.language == l)
unfolding is_of
is_of-some child l = refl

keep-pairs :
    (child l p : Text) (ready : List (Text × Text))
    → any (pair_is l p) (keep (λ entry. not (entry.0 == child)) ready)
      ≡ (if child == l then false else any (pair_is l p) ready)
keep-pairs child l p [] = ground arith
keep-pairs child l p (entry ∷ ready) =
    ground
      (arith, ==_iff child l, ==_iff entry.0 child, ==_iff entry.0 l, keep-pairs child l p ready)

keep-languages :
    (child l : Text) (languages : List Text)
    → contains (keep (λ x. not (x == child)) languages) l
      ≡ (if child == l then false else contains languages l)
keep-languages child l [] = ground arith
keep-languages child l (x ∷ languages) =
    ground (arith, ==_iff child l, ==_iff x child, ==_iff x l, keep-languages child l languages)

forgotten :
    (child : Option SupervisedChild) (l p : Text) (ready : List (Text × Text))
    (languages : List Text)
    → (any (pair_is l p) (forget_ready child ready) || contains (forget_language child languages) l)
      ≡ (if is_of child l then false else any (pair_is l p) ready || contains languages l)
unfolding is_of
forgotten none l p ready languages = refl
forgotten (some child) l p ready languages =
    ground (arith, keep-pairs child.language l p ready, keep-languages child.language l languages)

-- After a crash the language that the child was spawned for is ready in no package, and each
-- other language is ready just where it was.
ready_in-note_crash_err :
    (sup : Supervisor) (now : ℕ) (pack l p : Text) (e : EngineError) (st : SupervisorState)
    → ready_in (note_crash_err sup now pack e st) l p
      ≡ (if is_of (get pack st.children) l then false else ready_in st l p)
unfolding note_crash_err
ready_in-note_crash_err sup now pack l p e st =
    forgotten (get pack st.children) l p st.ready st.ready_languages

with_package-ready :
    (l pkg : Text) (languages : List Text) (rest : List (Text × Text))
    → In l languages
    → any (pair_is l pkg) (with_package pkg languages ++ rest) ≡ true
with_package-ready l pkg [] rest m = absurd m
with_package-ready l pkg (x ∷ languages) rest (inl e) = ground (arith, ==_iff x l, ==_refl pkg)
with_package-ready l pkg (x ∷ languages) rest (inr m) =
    ground (arith, with_package-ready l pkg languages rest m)

-- A spawn makes its language and each extra language of its adapter ready in the package.
pub ready_in-mark_ready :
    (st : SupervisorState) (a : Adapter) (handle : ChildHandle) (language pkg l : Text)
    → In l (languages_of language a)
    → ready_in (mark_ready st a handle language pkg) l pkg ≡ true
unfolding mark_ready
ready_in-mark_ready st a handle language pkg l m = rw found refl
  where
    found :
        any (pair_is l pkg) (
          with_package pkg (languages_of language a)
          ++ (ready_pairs a.ready_signal (languages_of language a) ++ st.ready))
        ≡ true
    found =
        with_package-ready l pkg (languages_of language a)
          (ready_pairs a.ready_signal (languages_of language a) ++ st.ready) m

pub mark_ready-children :
    (st : SupervisorState) (a : Adapter) (handle : ChildHandle) (language pkg : Text)
    → get a.pack_name (mark_ready st a handle language pkg).children
      ≡ some (record { handle = handle; language = language })
unfolding mark_ready
mark_ready-children st a handle language pkg =
    rw
      (
        get-insert a.pack_name a.pack_name (record { handle = handle; language = language })
            st.children,
        ==_refl a.pack_name,
      )
      refl

-- When the child that a spawn has started crashes, the child is gone and the language that it was
-- spawned for is not ready in the package, but each other extra language of its adapter still is.
note_crash_err-mark_ready :
    (sup : Supervisor) (now : ℕ) (st : SupervisorState) (a : Adapter) (handle : ChildHandle)
    (language pkg extra : Text) (e : EngineError)
    → In extra a.extra_languages
    → language ≢ extra
    → let crashed = note_crash_err sup now a.pack_name e (mark_ready st a handle language pkg) in
      (get a.pack_name crashed.children ≡ none)
      × (ready_in crashed language pkg ≡ false)
      × (ready_in crashed extra pkg ≡ true)
note_crash_err-mark_ready sup now st a handle language pkg extra e m different =
    let started = mark_ready st a handle language pkg in
    (
      ground (
        arith,
        (note_crash_err_lem sup now a.pack_name a.pack_name e started).0,
        ==_refl a.pack_name,
      ),
      ground (
        arith,
        ready_in-note_crash_err sup now a.pack_name language pkg e started,
        ap (λ c. is_of c language) (mark_ready-children st a handle language pkg),
        is_of-some (record { handle = handle; language = language }) language,
        ==_refl language,
      ),
      ground (
        arith,
        ready_in-note_crash_err sup now a.pack_name extra pkg e started,
        ap (λ c. is_of c extra) (mark_ready-children st a handle language pkg),
        is_of-some (record { handle = handle; language = language }) extra,
        ==_iff language extra,
        ready_in-mark_ready st a handle language pkg extra (inr m),
      ),
    )
