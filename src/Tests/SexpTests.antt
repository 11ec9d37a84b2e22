-- ===== src/Tests/SexpTests.antt =====
-- Runs of the S-expressions of nodes.
use wasitter.Iterator.{Tree, node, nil, cons}
use wasitter.Navigation.Sexp.{
  Printed, to_s_expression, descendant_count, field_name_for_child_fallback,
}
use wasitter.Node.{Node}
use wasitter.Prelude.{
  ℕ, true, false, Option, none, some, [], ◌∷◌, ◌++◌, ◌==◌, ◌&&◌, if◌then◌else◌, ◌≡◌, refl, Bytes,
  codes,
}

abbrev live : ℕ → Node
live label = record {
  is_null = false;
  start_byte = 0;
  end_byte = 1;
  start_point = record { row = 0; column = 0 };
  end_point = record { row = 0; column = 1 };
  text = [];
}

-- strconv.Quote of a text without special characters.
abbrev quote : Bytes → Bytes
quote s = b'"' ∷ s ++ b'"' ∷ []

abbrev kind_of_label : ℕ → Bytes
kind_of_label label =
    if label == 1
    then codes "pair"
    else if label == 2
    then codes "string"
    else if label == 3
    then codes ":"
    else codes "number"

abbrev field_of_place : ℕ → ℕ → Bytes
field_of_place parent place =
    if parent == 1 && place == 0
    then codes "key"
    else if parent == 1 && place == 2
    then codes "value"
    else []

abbrev printed : Printed
printed = record {
  facts = live;
  sexp = λ _. none;
  kind = kind_of_label;
  is_missing = λ label. label == 4;
  field = field_of_place;
}

abbrev colon : Tree
colon = node 3 false nil

abbrev pair_tree : Tree
pair_tree = node 1 true (cons (node 2 true nil) (cons colon (cons (node 4 true nil) nil)))

prints_pair :
    to_s_expression quote printed pair_tree
    ≡ codes "(pair key: (string) \":\" value: (MISSING number))"
unfolding to_s_expression
prints_pair = refl

prints_token : to_s_expression quote printed colon ≡ codes "(\":\")"
unfolding to_s_expression
prints_token = refl

counts_pair : descendant_count live 2147483647 (λ _. none) pair_tree ≡ 4
unfolding descendant_count
counts_pair = refl

abbrev name_of_field : ℕ → Bytes
name_of_field id = if id == 1 then codes "key" else if id == 2 then codes "value" else []

abbrev child_of_field : Tree → ℕ → Option ℕ
child_of_field parent id = if id == 1 then some 2 else if id == 2 then some 4 else none

names_field :
    field_name_for_child_fallback name_of_field child_of_field pair_tree true true 3
      (some (node 4 true nil))
    ≡ codes "value"
unfolding field_name_for_child_fallback
names_field = refl
