-- ===== src/Permission/Paths.antt =====
-- module/permission/permission.go, `defaultPaths`: the paths in the arguments of a call. `parse`
-- stands for json.Unmarshal and `to_lower` for strings.ToLower. The fields of an object are in
-- the order in which Go's map happens to give them.
use gocel.Prelude.{
  Bool-cases, ◌↔◌, subst, beq_self, ◌∙◌, inr, ◌⊎◌, ◌∙◌, inr, contains-append, arith, inl, true, ◌≡◌,
  contains, Bool, ◌||◌, List, [], ◌∷◌, ◌++◌, String, if◌then◌else◌, string_eq, ◌==◌, Result, ok,
  err,
}
use gocel.Permission.{Fault}

mutual
  pub data Json : Type 0 where
    null : Json
    bool : Bool → Json
    num : String → Json
    text : String → Json
    arr : Items → Json
    obj : Fields → Json

  pub data Items : Type 0 where
    nil : Items
    cons : Json → Items → Items

  pub data Fields : Type 0 where
    end : Fields
    field : String → Json → Fields → Fields

unfoldable pub ends_with : String → String → Bool
ends_with String.[] suffix = String.[] == suffix
ends_with (String.◌∷◌ c s) suffix = String.◌∷◌ c s == suffix || ends_with s suffix

unfoldable pub is_path_key : String → Bool
unfolding ends_with
is_path_key k =
    k == "path"
    || k == "file"
    || k == "filepath"
    || k == "dir"
    || k == "directory"
    || k == "target"
    || k == "root"
    || k == "workdir"
    || ends_with k "_path"
    || ends_with k "_dir"

module _ (to_lower : String → String) where
  -- A text under a path-like key; anything else is searched.
  unfoldable mutual
    unfolding is_path_key

    pub collect_paths : Json → List String
    collect_paths (arr items) = collect_items items
    collect_paths (obj fields) = collect_fields fields
    collect_paths null = []
    collect_paths (bool b) = []
    collect_paths (num n) = []
    collect_paths (text s) = []

    collect_items : Items → List String
    collect_items nil = []
    collect_items (cons item items) = collect_paths item ++ collect_items items

    collect_fields : Fields → List String
    collect_fields end = []
    collect_fields (field key (text s) fields) =
        if is_path_key (to_lower key) then s ∷ collect_fields fields else collect_fields fields
    collect_fields (field key value fields) = collect_paths value ++ collect_fields fields

  default_paths : (parse : String → Result Fault Json) → String → Result Fault (List String)
  unfolding collect_paths
  default_paths parse args =
      if args == ""
      then ok []
      else elim (parse args) [ err fault ↦ err fault | ok value ↦ ok (collect_paths value) ]

  -- The text s stands under a path-like key, at any depth.
  mutual
    pub data Under : Json → String → Type 0 where
      in_items : (items : Items) (s : String) → UnderItems items s → Under (arr items) s
      in_fields : (fields : Fields) (s : String) → UnderFields fields s → Under (obj fields) s

    pub data UnderItems : Items → String → Type 0 where
      first :
          (item : Json) (items : Items) (s : String) → Under item s → UnderItems (cons item items) s
      later :
          (item : Json) (items : Items) (s : String)
          → UnderItems items s
          → UnderItems (cons item items) s

    pub data UnderFields : Fields → String → Type 0 where
      named :
          (key s : String) (fields : Fields)
          → is_path_key (to_lower key) ≡ true
          → UnderFields (field key (text s) fields) s
      inside :
          (key : String) (value : Json) (fields : Fields) (s : String)
          → Under value s
          → UnderFields (field key value fields) s
      further :
          (key : String) (value : Json) (fields : Fields) (s : String)
          → UnderFields fields s
          → UnderFields (field key value fields) s

  or_left : (a b : Bool) → a ≡ true → (a || b) ≡ true
  or_left a b h = ground arith

  or_right : (a b : Bool) → b ≡ true → (a || b) ≡ true
  or_right a b h = ground arith

  contains-left :
      (s : String) (xs ys : List String) → contains s xs ≡ true → contains s (xs ++ ys) ≡ true
  contains-left s xs ys h = contains-append s xs ys ∙ or_left _ _ h

  contains-right :
      (s : String) (xs ys : List String) → contains s ys ≡ true → contains s (xs ++ ys) ≡ true
  contains-right s xs ys h = contains-append s xs ys ∙ or_right (contains s xs) _ h

  found_value :
      (key : String) (value : Json) (fields : Fields) (s : String)
      → (contains s (collect_paths value) ≡ true) ⊎ (contains s (collect_fields fields) ≡ true)
      → contains s (collect_fields (field key value fields)) ≡ true
  unfolding collect_paths collect_fields
  found_value key (text t) fields s (inl h) = absurd (cc h)
  found_value key (text t) fields s (inr h) = ground arith
  found_value key null fields s (inl h) = absurd (cc h)
  found_value key null fields s (inr h) = h
  found_value key (bool b) fields s (inl h) = absurd (cc h)
  found_value key (bool b) fields s (inr h) = h
  found_value key (num n) fields s (inl h) = absurd (cc h)
  found_value key (num n) fields s (inr h) = h
  found_value key (arr items) fields s (inl h) =
      contains-left s (collect_items items) (collect_fields fields) h
  found_value key (arr items) fields s (inr h) =
      contains-right s (collect_items items) (collect_fields fields) h
  found_value key (obj its) fields s (inl h) =
      contains-left s (collect_fields its) (collect_fields fields) h
  found_value key (obj its) fields s (inr h) =
      contains-right s (collect_fields its) (collect_fields fields) h

  split_append :
      (s : String) (xs ys : List String)
      → contains s (xs ++ ys) ≡ true
      → (contains s xs ≡ true) ⊎ (contains s ys ≡ true)
  split_append s xs ys h = elim (Bool-cases (contains s xs)) [
    | inl here ↦ inl here
    | inr gone ↦ inr (ground (arith, contains-append s xs ys))
  ]

  under_text :
      (key t : String) (fields : Fields) (s : String)
      → contains s (collect_fields (field key (text t) fields)) ≡ true
      → ((is_path_key (to_lower key) ≡ true) × (t ≡ s))
        ⊎ (contains s (collect_fields fields) ≡ true)
  unfolding collect_paths collect_fields
  under_text key t fields s h = elim (Bool-cases (is_path_key (to_lower key))) [
    | inr plain_key ↦ inr (rw (collect_fields, plain_key) at h)
    | inl path_key ↦ elim (Bool-cases (t == s)) [
      | inl same ↦ inl (path_key, (string_eq.beq_iff t s).0 same)
      | inr differ ↦ inr (rw (collect_fields, path_key, differ) at h)
    ]
  ]

  mutual
    unfolding collect_paths collect_items collect_fields

    found-Under : (v : Json) (s : String) → Under v s → contains s (collect_paths v) ≡ true
    found-Under _ s (in_items items _ u) = found_items items s u
    found-Under _ s (in_fields fields _ u) = found_fields fields s u

    found_items :
        (items : Items) (s : String) → UnderItems items s → contains s (collect_items items) ≡ true
    found_items _ s (first item items _ u) =
        contains-left s (collect_paths item) (collect_items items) (found-Under item s u)
    found_items _ s (later item items _ u) =
        contains-right s (collect_paths item) (collect_items items) (found_items items s u)

    found_fields :
        (fields : Fields) (s : String)
        → UnderFields fields s
        → contains s (collect_fields fields) ≡ true
    found_fields _ s (named key _ fields h) = ground (arith, beq_self s)
    found_fields _ s (inside key value fields _ u) =
        found_value key value fields s (inl (found-Under value s u))
    found_fields _ s (further key value fields _ u) =
        found_value key value fields s (inr (found_fields fields s u))

  mutual
    unfolding collect_paths collect_items collect_fields

    Under-found : (v : Json) (s : String) → contains s (collect_paths v) ≡ true → Under v s
    Under-found (arr items) s h = in_items items s (under_items items s h)
    Under-found (obj fields) s h = in_fields fields s (under_fields fields s h)
    Under-found null s h = absurd (cc h)
    Under-found (bool b) s h = absurd (cc h)
    Under-found (num n) s h = absurd (cc h)
    Under-found (text t) s h = absurd (cc h)

    under_items :
        (items : Items) (s : String) → contains s (collect_items items) ≡ true → UnderItems items s
    under_items nil s h = absurd (cc h)
    under_items (cons item items) s h =
        elim (split_append s (collect_paths item) (collect_items items) h) [
          | inl here ↦ first item items s (Under-found item s here)
          | inr there ↦ later item items s (under_items items s there)
        ]

    under_fields :
        (fields : Fields) (s : String)
        → contains s (collect_fields fields) ≡ true
        → UnderFields fields s
    under_fields end s h = absurd (cc h)
    under_fields (field key (text t) fields) s h = elim (under_text key t fields s h) [
      | inl (path_key, same) ↦
          subst (λ x. UnderFields (field key (text t) fields) x) same (named key t fields path_key)
      | inr there ↦ further key (text t) fields s (under_fields fields s there)
    ]
    under_fields (field key null fields) s h = further key null fields s (under_fields fields s h)
    under_fields (field key (bool b) fields) s h =
        further key (bool b) fields s (under_fields fields s h)
    under_fields (field key (num n) fields) s h =
        further key (num n) fields s (under_fields fields s h)
    under_fields (field key (arr items) fields) s h =
        elim (split_append s (collect_items items) (collect_fields fields) h) [
          | inl here ↦ inside key (arr items) fields s (in_items items s (under_items items s here))
          | inr there ↦ further key (arr items) fields s (under_fields fields s there)
        ]
    under_fields (field key (obj its) fields) s h =
        elim (split_append s (collect_fields its) (collect_fields fields) h) [
          | inl here ↦ inside key (obj its) fields s (in_fields its s (under_fields its s here))
          | inr there ↦ further key (obj its) fields s (under_fields fields s there)
        ]

  -- The texts that collectPaths gives are those under a path-like key at any depth of the
  -- arguments.
  pub collect_paths_lem :
      (v : Json) (s : String) → (contains s (collect_paths v) ≡ true) ↔ Under v s
  collect_paths_lem v s = (Under-found v s, found-Under v s)
