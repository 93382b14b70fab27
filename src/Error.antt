-- ===== src/Error.antt =====
-- tydomio/error.py: the exceptions, and which are caught as a `CommunicationError`.
-- `unexpected` stands for any exception from outside the library (`ValueError`, `RecursionError`),
-- which no handler of the library names.
use tydomio.Base.{Bool, true, false}

pub data Error : Type 0 where
  tydom_io communication invalid_response invalid_request : Error
  authorization invalid_target invalid_write unexpected : Error

-- `isinstance(error, CommunicationError)`
abbrev pub is_communication : Error → Bool
is_communication communication = true
is_communication invalid_response = true
is_communication invalid_request = true
is_communication authorization = true
is_communication _ = false

-- `except (InvalidRequest, InvalidResponse)` of the reading loop.
abbrev pub is_malformed : Error → Bool
is_malformed invalid_request = true
is_malformed invalid_response = true
is_malformed _ = false
