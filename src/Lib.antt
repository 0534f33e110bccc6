-- ===== src/Lib.antt =====
-- go-libvirt is a client of libvirt's remote protocol. A Socket (socket/socket.go) reads and
-- writes packets on a connection; the client (libvirt.go, rpc.go) keeps a table of the calls that
-- wait for a reply and a table of event streams (internal/event), and routes each packet that the
-- socket reads to one of them.
--
-- Base holds what the parts share: bytes, the results of calls that can fail, Go's 32-bit
-- integers, maps with integer keys, and list lemmas. Numbers are natural numbers; a field of w
-- bits is taken modulo 2 ^ w where the code cuts it.
--
-- Socket is socket/socket.go. Socket.Packet is the type Header and the layout of a packet.
-- Socket.Reader is pktlen, extractHeader, isTemporary and io.ReadFull on a feed: the bytes that
-- arrive and, between them, the errors that Read returns; the end of the feed is the end of the
-- connection. Socket.Listen is the loop of listen, on fuel; a round that goes on takes a byte or
-- an error off the feed, so one round more than the feed is long is enough. Socket.Send is
-- SendPacket and SendStream. bufio.Writer is a record of what is buffered, what the connection has
-- taken, and what it answers to the calls of its Write to come: it takes all, or fails and has
-- taken some. The buffer has 4096 bytes, bufio's default; a write that overflows it flushes it
-- first, and a larger one goes to the connection at once. SendPacket holds the lock until it
-- returns, so a call is one step. Socket.Transfer joins the two ends of a connection.
--
-- Event.Stream is internal/event/stream.go: process, and the calls that meet it on its channels,
-- as a step function. A step that gives no value is a call that blocks.
--
-- Rpc is rpc.go with the state it keeps in the type Libvirt of libvirt.go. Rpc.Errors reads error
-- replies. Rpc.Callbacks is the registry of callers, with the channels as numbers, what was sent
-- on them and which are closed; a send on a closed channel and a second close are recorded as a
-- panic, and a send to a caller that receives no more gives no value: it blocks. Rpc.Events is the
-- table of event streams, which are references into a heap. Rpc.Route is Route. Rpc.Request is
-- requestStream, with what arrives on its channel as a list; the goroutine that runs SendStream is
-- seen by what it reports. Rpc.Transfer follows a stream from its sender to the writer of its
-- receiver.
--
-- Rpc.Serial is the counter of serial numbers, and Rpc.TypedParam the decoder of typed parameters.
--
-- Client.Lifecycle is the life of a connection: Connect, Disconnect and listenAndRoute of
-- socket/socket.go with ConnectToURI, Disconnect and waitAndDisconnect of libvirt.go, as the
-- interleaved steps of their goroutines. Channels are numbers, and each goroutine of
-- waitAndDisconnect has a place of its own; one caller at a time is in ConnectToURI. A wait with a
-- timeout has no step. Client.Uri is dialerForURI of connect_uri.go; a URL is given by its parts,
-- and a dialer is the list of the options that it is made with. strings.ToLower is that of ASCII
-- text. Client.Uri.Remote is RemoteURI and ConnectToURI of the same file; the printing of a URL
-- and the connection are arguments.
--
-- Client.Remote is a server as a client sees it: what requestStream returns behind the requests so
-- far, which may depend on all of them, package xdr at the types that are used, and json.Unmarshal
-- on an error of QEMU. A call is a function of the requests sent before it to a result and the
-- requests sent behind it. Client.Bindings is the wrappers of remote_protocol.gen.go and
-- qemu_protocol.gen.go that libvirt.go calls, and Client.Constants numbers of internal/constants.
-- Client.Operations, Client.Monitor and Client.Login are the calls of libvirt.go on them: those on
-- a domain by its name and the others, Run, and authenticate with initLibvirtComms. A value that
-- Go returns beside an error is left out. Client.Subscriptions is SubscribeEvents, LifecycleEvents
-- and SubscribeQEMUEvents, from the request that registers the callback to the deferred calls of
-- the goroutine, over the table of Rpc.Events. Client.Wired puts requestStream under the calls:
-- what a server answers is what requestStream makes of what arrives on the caller's channel.
--
-- Dialers is socket/dialers. Dialers.Plain is local.go, remote.go and already_connected.go;
-- Dialers.Tls is tls.go, with the search for certificates and the byte that the server writes;
-- Dialers.Ssh is gossh.go, with the methods of authentication in Dialers.Ssh.Auth, the file of
-- known hosts in Dialers.Ssh.HostKey and the dial in Dialers.Ssh.Connect. The operating system is
-- a record of what it says; packages net, tls, ssh and knownhosts are arguments, and what is
-- relied on of the last is the record IsFaithful.
--
-- Lvgen is the generator of the bindings, internal/lvgen. Lvgen.Lexer is lvlexer.go over the runes
-- of a protocol file: the text from start to pos, with its last rune first, and the text from pos
-- on. A state function is a turn, with the items that it sends and the state that it returns; Run
-- is turns on fuel, and on an input in which every number rune is a decimal digit, two turns for
-- each rune and two more are enough. The classes of package unicode are a parameter. Lvgen.Names
-- is what generate.go makes of names, for ASCII text; the inner loop of fixAbbrevs is on fuel, as
-- it does not end on every name. Lvgen.Numbers is what is used of strconv, and Lvgen.Table a map
-- with string keys. Lvgen.Generator is the state of generate.go, its package variables as a
-- record: Lvgen.Generator.Actions and Lvgen.Generator.Containers are the routines that the parser
-- calls, Lvgen.Generator.Meta is parseMeta, Lvgen.Generator.Flags and Lvgen.Generator.Link are
-- procLink and addBidirectionalProcs. A routine that returns an error, panics or never ends gives
-- a fault. Lvgen.Grammar is the parse trees of sunrpc.y and its actions, in the order in which the
-- parser reduces the rules, and Lvgen.Generate is Generate from the parse trees to the templates.
--
-- The XDR decoders (internal/go-xdr, a copy of another library) are arguments of the definitions
-- that use them. Not modelled: the other generated bindings, which come from the same templates,
-- the parser tables of y.go that goyacc makes, the generator's templates and files (the types that
-- const.gen.go declares are an argument), const_strings.gen.go, and the mock server in
-- libvirttest.

pub mod Base
pub mod Socket
pub mod Event
pub mod Rpc
pub mod Client
pub mod Dialers
pub mod Lvgen
mod Tests
