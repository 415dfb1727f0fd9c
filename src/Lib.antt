-- ===== src/Lib.antt =====
-- A model of the portable core of CyberLink for C (clinkc), a UPnP stack in C, with the theorems
-- that make it correct.
--
-- The stack is layered: strings and lists (clinkc/src/cybergarage/util), addresses and sockets
-- (net), HTTP, SOAP and XML over them, and UPnP devices and control points on top (upnp). Every
-- layer keeps its texts in the growing string CgString, addresses are parsed and printed by the
-- URI functions, and all texts inside XML documents pass through the two escape functions.
--
-- Modules, and the files that they model:
--   * Prelude: names of the libraries, Boolean tests, lists and integers over native numbers.
--   * Text: clinkc/src/cybergarage/util/cstring_function.c. A `char *` is a CStr: NULL, or the
--     bytes in front of the terminator. Text has the comparisons, Text.Search the searches, which
--     return an Option where C returns -1, Text.Trim the trimming functions, which return the new
--     text in place of writing it, and Text.Decimal the printing and reading of numbers.
--   * Str: clinkc/src/cybergarage/util/cstring.c. CgString is a record of the buffer's content,
--     memSize and valueSize; each function takes the old record and returns the new one. The
--     allocator is a parameter (Memory), so every allocation may fail. Str.Replace has
--     cg_string_replace, whose loop runs on fuel; one more than the length of the text is enough.
--   * Xml.Escape: clinkc/src/cybergarage/xml/cxml_function.c.
--   * Uri: clinkc/src/cybergarage/net/curi.c. The stages of cg_net_uri_setvalue are functions of
--     their own (set_protocol, set_user, ...), composed in the order of the source. A read outside
--     a buffer makes the result `none`. Uri.Printing puts a URI together again, and
--     Uri.Escape has the percent escapes, for builds without libcurl, and Uri.BasePath the base path
--     of a location.
--   * Http.Headers: clinkc/src/cybergarage/http/chttp_header.c and chttp_header_list.c. A header
--     list is a List of names and values.
--   * Event: subscriptions to the events of a device. Event.Subscription has the header values
--     (upnp/event/csubscription.c and csubscription_response.c), Event.Subscriber the record of a
--     subscriber (upnp/event/csubscriber.c), Event.Service the subscribers of a service
--     (upnp/cservice.c, upnp/cservice_notify.c), Event.Device the search for the service of a
--     request in the tree of devices (upnp/cdevice.c), and Event.Server the handler of the
--     device's HTTP server (upnp/cdevice_http_server.c), all under clinkc/src/cybergarage. The
--     services are a memory from numbers to records, which the handler takes and returns; the
--     clock, the new id and the success of each notification are inputs. The locks of the source
--     are left out: a handler runs as one step.
--   * Ring: clinkc/src/cybergarage/util/clist.c. Nodes lie in a store from numbers to records, and a
--     pointer is a number, 0 for NULL. The loops of cg_list_size and cg_list_clear run on fuel; one
--     more than the number of nodes is enough. Ring.Change and Ring.Removal have the invariant of a
--     ring, Ring.Walk the loops, and Ring.Refine the list that a ring stands for.
--   * Socket: clinkc/src/cybergarage/net/csocket.c, the reading and writing of a connected socket.
--     `recv` and `send` are a parameter (Kernel), and Socket.Streams says what they do on a
--     connection that works. cg_socket_write runs on fuel: 11 rounds for every byte and 11 more are
--     enough, since it gives up after 10 retries in a row.
--   * Tokenizer: clinkc/src/cybergarage/util/cstring_tokenizer.c, over the buffer that it cuts up.
--   * Dictionary: clinkc/src/cybergarage/util/cdictionary.c and cdictionary_elem.c.
--   * Http.Packet: clinkc/src/cybergarage/http/chttp_packet.c. Packets are written with
--     cg_socket_write, and their headers are read with cg_socket_readline and the tokenizer.
--     Http.Packet.Body has the reading of a content of known length: a run says whether the fuel
--     ran out, whether it wrote in front of its buffer, or with what it ended. For a content that
--     comes whole, fuel above its length is enough. Chunked contents, and contents up to the end
--     of the connection, are not modelled.
--   * Ssdp: advertising and searches of devices. Ssdp has the words and the packet
--     (clinkc/include/cybergarage/upnp/control/ccontrol.h, upnp/ssdp/cssdp_server.h), Ssdp.Device
--     what a device announces, takes back and answers (upnp/cdevice.c, upnp/cservice.c,
--     upnp/cdevice_ssdp_server.c, upnp/cservice_ssdp_server.c), and Ssdp.Filter the handler of a
--     search with its filter for repeated ones. A result `none` is an access outside the filter
--     table. Ssdp.Lease has the lease time (upnp/ssdp/cssdp_request.c, cssdp_response.c and
--     cssdp_packet.c).
--   * ControlPoint: the device cache of a control point (upnp/ccontrolpoint.c, upnp/cdevice.c, and
--     cg_upnp_usn_getudn of upnp/control/ccontrol_function.c), a list of device trees. A device that
--     the source reaches by a pointer and changes or deletes is exchanged in the list.
--     What fetching and parsing of a description yields, and whether the description of a service
--     can be had, is a parameter (Network). ControlPoint.Cache has the handlers.
--     ControlPoint.Lookup has the searches for devices and services by type, id and control URL
--     (upnp/cdevice.c, upnp/ccontrolpoint.c).
--   * TypeName: the functions that take the type of a device or service apart (upnp/cdevice.c,
--     upnp/cservice.c).
--   * Discovery: the notifications of a device arriving at a control point.
--   * Examples: runs at concrete inputs.
--
-- The event URL of a service is a field of its record; how it is put together from the description
-- and the base URL is not modelled. Where no memory is mentioned, allocations succeed.
--
-- Sizes and indices are unbounded natural numbers, so overflow of their `int` is not modelled. The
-- number that a text spells is exact; Text.Decimal.to_long and to_int say what a `long` and an `int`
-- hold of it, where the source keeps a timeout (upnp/event/csubscription.c) and a port
-- (net/curi.c). A CgString may hold bytes 0, and cg_string_setvalue and cg_string_addvalue take
-- the bytes in front of the first one. Not modelled are the opening of sockets, threads, mutexes, files and clocks, the adapters of the XML parsers,
-- the sample programs, the language wrappers and the test programs: they only call the operating
-- system or other libraries. The length of a content is a number, where the source keeps an int.
pub mod Prelude
pub mod Text
pub mod Str
pub mod Xml
pub mod Uri
pub mod Http
pub mod Event
pub mod Socket
pub mod Tokenizer
pub mod Dictionary
pub mod TypeName
pub mod Ssdp
pub mod ControlPoint
pub mod Discovery
pub mod Ring
mod Examples
