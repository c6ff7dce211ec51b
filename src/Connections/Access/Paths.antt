-- ===== src/Connections/Access/Paths.antt =====
-- Two secrets never share a path.
use text.Mathlib.TextLemmas.{head-eq_of_cons-eq, tail-eq_of_cons-eq}
use stardelt_nova.Prelude.{ℕ, Char, code, String, ◌≡◌, refl, sym, ap, ◌∙◌, ◌≢◌, Bool, true, arith}
use stardelt_nova.Prelude.Results.{ok, ok_inj}
use stardelt_nova.Text.{all_chars, ◌&◌}
use stardelt_nova.Names.{valid_connection_name, group_ok, valid_sub, is_sub_byte, is_group_byte}
use stardelt_nova.Connections.Types.{StoreScope, of_person, of_group, of_administrators}
use stardelt_nova.Connections.Access.{secret_path}

abbrev Lacks : ℕ → String → Type 0
Lacks k String.[] = Unit
Lacks k (String.◌∷◌ c s) = (code c ≢ k) × Lacks k s

Lacks-of_all :
    (k : ℕ) (p : ℕ → Bool) (s : String)
    → ((c : ℕ) → p c ≡ true → c ≢ k)
    → all_chars p s ≡ true
    → Lacks k s
unfolding all_chars
Lacks-of_all k p String.[] h e = tt
Lacks-of_all k p (String.◌∷◌ c s) h e =
    (h (code c) (ground arith), Lacks-of_all k p s h (ground arith))

sub_byte-ne-slash : (c : ℕ) → is_sub_byte c ≡ true → c ≢ b'/'
unfolding is_sub_byte
sub_byte-ne-slash c h = ground arith

group_byte-ne-slash : (c : ℕ) → is_group_byte c ≡ true → c ≢ b'/'
unfolding is_group_byte
group_byte-ne-slash c h = ground arith

valid_sub-Lacks : (s : String) → valid_sub s ≡ true → Lacks b'/' s
unfolding valid_sub
valid_sub-Lacks s h = Lacks-of_all b'/' is_sub_byte s sub_byte-ne-slash (ground arith)

group_ok-Lacks : (s : String) → group_ok s ≡ true → Lacks b'/' s
unfolding group_ok
group_ok-Lacks s h = Lacks-of_all b'/' is_group_byte s group_byte-ne-slash (ground arith)

-- A slash that neither front holds stands at the same place in two equal texts.
&_inj :
    (a b s t : String) → Lacks b'/' a → Lacks b'/' b → a & "/" & s ≡ b & "/" & t → (a ≡ b) × (s ≡ t)
&_inj String.[] String.[] s t _ _ e = (refl, tail-eq_of_cons-eq e)
&_inj String.[] (String.◌∷◌ d b) s t _ (h, _) e = absurd (h (ap code (sym (head-eq_of_cons-eq e))))
&_inj (String.◌∷◌ c a) String.[] s t (h, _) _ e = absurd (h (ap code (head-eq_of_cons-eq e)))
&_inj (String.◌∷◌ c a) (String.◌∷◌ d b) s t (_, p) (_, q) e =
    let (same, rest) = &_inj a b s t p q (tail-eq_of_cons-eq e) in (cc (head-eq_of_cons-eq e), rest)

-- The folder of a scope behind "connections/", when its names are valid: the kind of scope, and
-- the owner where there is one.
abbrev folder : StoreScope → String → String
folder (of_person sub) rest = "user" & "/" & (sub & "/" & rest)
folder (of_group g) rest = "group" & "/" & (g & "/" & rest)
folder of_administrators rest = "managed" & "/" & rest

abbrev HasOwner : StoreScope → Type 0
HasOwner (of_person sub) = Lacks b'/' sub
HasOwner (of_group g) = Lacks b'/' g
HasOwner of_administrators = Unit

&_assoc : (s t u : String) → (s & t) & u ≡ s & t & u
&_assoc String.[] t u = refl
&_assoc (String.◌∷◌ c s) t u = cc (&_assoc s t u)

module _ (name path : String) where
  person_folder :
      (sub : String)
      → secret_path (of_person sub) name ≡ ok path
      → Lacks b'/' sub × (("connections/user/" & sub) & "/" & name ≡ path)
  unfolding secret_path
  person_folder sub h =
      let v : valid_connection_name name ≡ true = ground arith in
      let w : valid_sub sub ≡ true = ground arith in
      (valid_sub-Lacks sub w, ok_inj (rw (v, w, secret_path) at h))

  group_folder :
      (g : String)
      → secret_path (of_group g) name ≡ ok path
      → Lacks b'/' g × (("connections/group/" & g) & "/" & name ≡ path)
  unfolding secret_path
  group_folder g h =
      let v : valid_connection_name name ≡ true = ground arith in
      let w : group_ok g ≡ true = ground arith in
      (group_ok-Lacks g w, ok_inj (rw (v, w, secret_path) at h))

  managed_folder :
      secret_path of_administrators name ≡ ok path → "connections/managed" & "/" & name ≡ path
  unfolding secret_path
  managed_folder h =
      let v : valid_connection_name name ≡ true = ground arith in ok_inj (rw (v, secret_path) at h)

  secret_path-folder :
      (scope : StoreScope)
      → secret_path scope name ≡ ok path
      → HasOwner scope × (path ≡ "connections" & "/" & folder scope name)
  secret_path-folder (of_person sub) h =
      let (p, e) = person_folder sub h in (p, sym e ∙ &_assoc "connections/user/" sub ("/" & name))
  secret_path-folder (of_group g) h =
      let (p, e) = group_folder g h in (p, sym e ∙ &_assoc "connections/group/" g ("/" & name))
  secret_path-folder of_administrators h = (tt, sym (managed_folder h))

-- The three kinds of folder differ in their first letters.
letter_differs :
    {A : Type 0} (c d : Char) (s t : String) → code c ≢ code d → String.◌∷◌ c s ≡ String.◌∷◌ d t → A
letter_differs c d s t h e = absurd (h (ap code (head-eq_of_cons-eq e)))

folder_inj :
    (a b : StoreScope) (s t : String)
    → HasOwner a
    → HasOwner b
    → folder a s ≡ folder b t
    → (a ≡ b) × (s ≡ t)
folder_inj (of_person x) (of_person y) s t p q e =
    let (same, rest) =
      &_inj x y s t p q (&_inj "user" "user" _ _ (omega arith) (omega arith) e).1 in
    (ap of_person same, rest)
folder_inj (of_group x) (of_group y) s t p q e =
    let (same, rest) =
      &_inj x y s t p q (&_inj "group" "group" _ _ (omega arith) (omega arith) e).1 in
    (ap of_group same, rest)
folder_inj of_administrators of_administrators s t p q e =
    (refl, (&_inj "managed" "managed" s t (omega arith) (omega arith) e).1)
folder_inj (of_person x) (of_group y) s t p q e = letter_differs _ _ _ _ (omega arith) e
folder_inj (of_person x) of_administrators s t p q e = letter_differs _ _ _ _ (omega arith) e
folder_inj (of_group x) (of_person y) s t p q e = letter_differs _ _ _ _ (omega arith) e
folder_inj (of_group x) of_administrators s t p q e = letter_differs _ _ _ _ (omega arith) e
folder_inj of_administrators (of_person y) s t p q e = letter_differs _ _ _ _ (omega arith) e
folder_inj of_administrators (of_group y) s t p q e = letter_differs _ _ _ _ (omega arith) e

-- Two secrets whose path is the same belong to the same scope and the same owner, and have the
-- same name: no name of one person, group or connection reaches the secret of another.
pub secret_path_inj :
    (a b : StoreScope) (s t path : String)
    → secret_path a s ≡ ok path
    → secret_path b t ≡ ok path
    → (a ≡ b) × (s ≡ t)
secret_path_inj a b s t path h k =
    let (p, e) = secret_path-folder s path a h in
    let (q, f) = secret_path-folder t path b k in
    folder_inj a b s t p q
      (&_inj "connections" "connections" _ _ (omega arith) (omega arith) (sym e ∙ f)).1
