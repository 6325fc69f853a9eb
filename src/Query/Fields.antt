-- ===== src/Query/Fields.antt =====
-- src/fields.cpp and src/fields.hpp, as a query reads them: the table of fields, and what a filter
-- sees of a torrent.
use porla.Base.{ℕ, Bool, List, [], ◌∷◌, Option, none, some, map, Bytes, bytes_eq, if◌then◌else◌}
use porla.Query.{Kind, suggest}
use porla.Query.Text.{InfoHash}
use porla.Query.Flags.{FlagSet}
use porla.Query.Interval.{Doubles}

-- `lt::torrent_status`: its states, with those that a query names, and the type of all the members
-- that only the getters of fields read.
pub record StateSet : Type 1 where
  pub Status : Type 0
  pub State : Type 0
  pub same_state : State → State → Bool
  pub checking_files : State
  pub downloading_metadata : State
  pub downloading : State
  pub finished : State
  pub seeding : State
  pub checking_resume_data : State

module _ (fp : Doubles) (fs : FlagSet) (ss : StateSet) where
  -- The parts of a context that filters read by themselves, and the rest. `tags` is absent where
  -- `client_data` is null.
  pub record Context : Type 0 where
    pub status : ss.Status
    pub name : Bytes
    pub info_hashes : InfoHash
    pub state : ss.State
    pub flags : fs.Flags
    pub tags : Option (List Bytes)
    pub now : ℕ

  -- The getters that the field's kind does not use are null pointers; here they return nothing.
  pub record Field : Type 0 where
    pub name : Bytes
    pub kind : Kind
    pub number : Context → Option fp.Double
    pub text : Context → Option Bytes
    pub boolean : Context → Option Bool

  -- `Fields::Find`.
  unfoldable pub find_field : Bytes → List Field → Option Field
  find_field name [] = none
  find_field name (f ∷ fields) =
      let rest = find_field name fields in if bytes_eq f.name name then some f else rest

  abbrev pub field_names : List Field → List Bytes
  field_names = map (λ f. f.name)

  -- `Suggest`.
  unfoldable pub suggest_field : Bytes → List Field → Option Bytes
  suggest_field name fields = suggest name (field_names fields)
