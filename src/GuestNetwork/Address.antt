-- ===== src/GuestNetwork/Address.antt =====
-- The constructor of the collector of mom/Collectors/GuestNetworkDaemon.py, and get_guest_ip. The
-- helper program and the matches of the regular expression in what it prints are parameters.
use mom.Prelude.{String, false, Option, none, some, List, [], ◌∷◌, Result, ok, err}
use mom.Prelude.Dict.{Dict, lookup}
use mom.Python.Value.{Error, key_error}
use mom.GuestNetwork.{Client}

-- just one line of the output begins with an address
unfoldable pub only : List String → Option String
only (ip ∷ []) = some ip
only _ = none

abbrev pub printed : Option (List String) → Option String
printed none = none
printed (some matches) = only matches

module _ (call : String → String → Option (List String)) where
  -- `call prog name`: the matches in the output, or `none` for an OSError
  abbrev pub asked : String → Option String → Option String
  asked name none = none
  asked name (some prog) = printed (call prog name)

  -- `config` is properties['config'], which is there only for a collector with a section
  unfoldable pub get_guest_ip : String → Option (Dict String) → Option String
  unfolding only
  get_guest_ip name none = none
  get_guest_ip name (some config) = asked name (lookup "name-to-ip-helper" config)

  -- GuestNetworkDaemon(properties): without a name a KeyError
  unfoldable pub create : Option String → Option (Dict String) → Result Error Client
  unfolding get_guest_ip
  create none config = err key_error
  create (some name) config =
      ok (record { ip = get_guest_ip name config; connected = false; dead = false })
