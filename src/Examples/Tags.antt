-- ===== src/Examples/Tags.antt =====
-- Tags on the tapes of the stocked library.
use vtladm.Prelude.{Text, ◌≡◌, refl, ◌&&◌, ◌||◌, not, [], ◌∷◌, codes, text_eq, ◌==◌, all}
use vtladm.Errors.{Result, ok, err}
use vtladm.Catalog.{find_library, resolve_library_id}
use vtladm.Catalog.Tapes.{find_named}
use vtladm.Shelves.{is_in}
use vtladm.Tags.{TagTables, find_tag, tape_id_of, tag_add, tag_delete}
use vtladm.Tags.Tables.{IsSound, UniqueTags, has_tag}
use vtladm.Tags.Lists.{is_listed}
use vtladm.Tags.Listed.{tag_add_lists, tag_delete_lists}
use vtladm.Examples.{stocked, marstor}

abbrev daily : Text
daily = codes "daily"

abbrev weekly : Text
weekly = codes "weekly"

-- Tape 1 has the tag `daily`.
abbrev tagged : TagTables
tagged = record {
  tags = record { id = 1; name = daily } ∷ [];
  tape_tags = record { tape_id = 1; tag_id = 1 } ∷ [];
}

tagged-IsSound : IsSound tagged
unfolding UniqueTags has_tag find_tag all
tagged-IsSound = record { unique = (refl, refl, tt); referred = refl }

abbrev or_tagged : Result TagTables → TagTables
or_tagged (ok tables) = tables
or_tagged (err e) = tagged

abbrev both : TagTables
both = or_tagged (tag_add marstor (codes "t2") (daily ∷ weekly ∷ []) stocked tagged)

tag_add_lists_example :
    IsSound both
    × (is_listed 2 weekly both
        ≡ is_listed 2 weekly tagged || (2 == 2 && is_in weekly (daily ∷ weekly ∷ [])))
unfolding tag_add tape_id_of resolve_library_id find_library find_named text_eq
tag_add_lists_example =
    tag_add_lists marstor (codes "t2") (daily ∷ weekly ∷ []) stocked tagged 2 2 weekly
      tagged-IsSound refl refl

abbrev none_left : TagTables
none_left = or_tagged (tag_delete daily tagged)

tag_delete_lists_example :
    IsSound none_left
    × (is_listed 1 daily none_left ≡ is_listed 1 daily tagged && not (text_eq daily daily))
unfolding tag_delete find_tag text_eq
tag_delete_lists_example = tag_delete_lists daily daily 1 tagged tagged-IsSound refl
