-- ===== src/Registry/Acts.antt =====
-- What the three operations of a registry do to the dictionary that it is read as.
use simple_agent_framework.Prelude.{◌≡◌, List, Option}
use simple_agent_framework.Prelude.Text.{Text}
use simple_agent_framework.Registry.{Registry, remove, get, list, add}
use simple_agent_framework.Registry.Dictionary.{insert_all, erase, find, IsValid}
use simple_agent_framework.Registry.Refine.{add-refines, remove-refines, get-list}

-- A valid registry stays valid and acts as the dictionary of its list: `Add` of items, nil ones among
-- them, puts an item in the place of the one with its name, or last; `Remove` takes the item with
-- that name out of the list; `Get` finds what is listed under the name.
pub registry-refines :
    {A : Type 0} (name_of : A → Text) (xs : List (Option A)) (name : Text) (r : Registry A)
    → IsValid name_of r
    → (IsValid name_of (add name_of xs r)
        × (list (add name_of xs r) ≡ insert_all name_of xs (list r)))
      × (IsValid name_of (remove name r) × (list (remove name r) ≡ erase name_of name (list r)))
      × (get name r ≡ find name_of name (list r))
registry-refines name_of xs name r v =
    (add-refines name_of xs r v, remove-refines name_of name r v, get-list name_of name r v)
