-- ===== src/GuestAgent/Choice.antt =====
-- QemuGuestAgentClient and _QemuGuestAgentLibvirtClient of mom/Collectors/QemuGuestAgentClient.py: the
-- agent over a socket, or by a call of the hypervisor interface, whose answers are a parameter.
use mom.Prelude.{String, Bool, Option, none, some, Result, ok, err, if◌then◌else◌}
use mom.Python.Value.{Error, attribute_error}
use mom.Hypervisor.Json.{Json}
use mom.GuestAgent.{Codec, Ret, request, ret_of}

pub data Client : Type 0 where
  over_libvirt : String → Client
  over_socket : String → Client

-- _QemuGuestAgentLibvirtClient(uuid, hypervisor_iface): `has_command` says whether the interface has the
-- method; getattr raises an AttributeError
unfoldable pub libvirt_client : Bool → String → Result Error Client
libvirt_client has_command uuid =
    if has_command then ok (over_libvirt uuid) else err attribute_error

unfoldable pub create : Bool → String → Option String → Result Error Client
unfolding libvirt_client
create has_command uuid none = libvirt_client has_command uuid
create has_command uuid (some where_) = ok (over_socket where_)

module _ (codec : Codec) (command : String → String → Result Error String) where
  abbrev pub and_then : {A B : Type 0} → Result Error A → (A → Result Error B) → Result Error B
  and_then (ok a) f = f a
  and_then (err e) f = err e

  -- `command uuid text`: qemuAgentCommand
  unfoldable pub call : String → String → Json → Result Error Ret
  unfolding ret_of
  call uuid name arguments =
      and_then (command uuid (codec.dumps (request name arguments)))
        λ response. and_then (codec.loads response) λ answer. ret_of answer
