-- ===== src/Http/Client/Report/Port.antt =====
-- The port among the attributes: the test of the parser's error is the wrong way round.
use krakend_otel.Prelude.{◌≡◌, refl, false, some, pos}
use krakend_otel.Http.Attributes.{HttpRequest, Url}
use krakend_otel.Http.Client.Report.{request_server_and_port, parse_int32, port_of}

-- For a request whose URL has a port that is a number of 32 bits, the server is the URL's host, and
-- the port is reported as 80, whatever the number is. If the port is removed from the URL, it is
-- reported as 0.
pub request_server_and_port-port :
    (r : HttpRequest) (u : Url)
    → r.url ≡ some u
    → (parse_int32 u.port).1 ≡ false
    → (request_server_and_port r ≡ (u.hostname, pos 80))
      × (request_server_and_port (record r { url = some (record u { port = "" }) })
          ≡ (u.hostname, pos 0))
unfolding request_server_and_port parse_int32
request_server_and_port-port r u e parses =
    (rw (e, request_server_and_port) (rw (parses, port_of)), refl)
