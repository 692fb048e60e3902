-- ===== src/Cli/Listing.antt =====
-- crates/syauth-cli/src/list.rs: `syauth list`. The rendered time of `format_rfc3339` is a parameter,
-- with `none` for its error.
use syauth.Base.{ℕ, Text, text, [], ◌∷◌, ◌++◌, Option, none, some, flat_map}
use syauth.Core.Bond.{Bond, BondStatus, bonded, revoked, BondStore}

abbrev pub list_empty_hint : Text
list_empty_hint = text "(no bonds; run `syauth pair` to add one)"

abbrev pub list_field_sep : Text
list_field_sep = text "\t"

abbrev pub render_status : BondStatus → Text
render_status bonded = text "bonded"
render_status (revoked reason) = text "revoked:" ++ reason

abbrev pub render_row : (ℕ → Option Text) → Bond → Text
render_row format_rfc3339 b =
    b.peer_id
    ++ (list_field_sep
        ++ (b.name
            ++ (list_field_sep
                ++ (render_status b.status
                    ++ (list_field_sep
                        ++ ((elim (format_rfc3339 b.created_at) [ none ↦ text "?" | some t ↦ t ])
                            ++ text "\n"))))))

-- What `render_list_to` writes.
abbrev pub render_list : (ℕ → Option Text) → BondStore → Text
render_list format_rfc3339 store = elim store.bonds [
  | [] ↦ list_empty_hint ++ text "\n"
  | b ∷ bs ↦ flat_map (render_row format_rfc3339) (b ∷ bs)
]
