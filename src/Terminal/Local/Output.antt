-- ===== src/Terminal/Local/Output.antt =====
-- What the output and the end of a shell do to its subscribers in internal/terminal/local.go.
use appx.Base.{true, if◌then◌else◌}
use appx.Text.{Text}
use appx.Terminal.Local.{LocalSession}

-- A session after closeOnce.
abbrev ended : LocalSession → LocalSession
ended s =
    if s.close_once then s else record s { ptmx_closed = true; done = true; close_once = true }
